-- ===== src/Config/Decode/Cast.antt =====
-- The priority of a decoded config, which a cast to `int` makes of a 64-bit integer: when it is the
-- number of the file, and what it is beyond the range.
use easy_failover.Base.{
  ◌-◌, ◌^◌, ℤ, pos, negsuc, ◌≤ℤ◌, ◌≡◌, ◌↔◌, refl, sym, ap, subst, Text, codes, [], Option, some,
  arith,
}
use easy_failover.Base.Result.{Result, ok, throw, ◌>>=◌}
use easy_failover.Toml.{Toml}
use easy_failover.Config.{Config, default_config}
use easy_failover.Config.Decode.{
  ConfigError, to_int, optional, optional_int, optional_string, required_table, part, vip_from,
  heartbeat_from, health_from, election_from, api_from, mutation_safety_from, discovery_from,
  peers_from, typed_value_if_present, value_or, config_from_table,
}

-- The numbers of an `int` of 32 bits.
abbrev pub IsInt : ℤ → Type 0
IsInt z = (negsuc (2 ^ 31 - 1) ≤ℤ z) × (z ≤ℤ pos (2 ^ 31 - 1))

-- The result of the cast is an `int`.
to_int-IsInt : (z : ℤ) → IsInt (to_int z)
unfolding to_int
to_int-IsInt (pos n) = ground arith
to_int-IsInt (negsuc n) = ground arith

-- The cast keeps a number exactly if it is in the range of a 32-bit `int`.
to_int_exact_iff : (z : ℤ) → (to_int z ≡ z) ↔ IsInt z
unfolding to_int
to_int_exact_iff (pos n) = ground arith
to_int_exact_iff (negsuc n) = ground arith

-- `Q` of a result, if it is one.
IfOk : {A : Type 0} → (A → Type 0) → Result ConfigError A → Type 0
IfOk Q (ok a) = Q a
IfOk Q (throw e) = Unit

bind_IfOk :
    {A B : Type 0} (Q : B → Type 0) (m : Result ConfigError A) (f : A → Result ConfigError B)
    → ((a : A) → m ≡ ok a → IfOk Q (f a))
    → IfOk Q (m >>= f)
unfolding IfOk
bind_IfOk Q (ok a) f h = h a refl
bind_IfOk Q (throw e) f h = tt

ok_value : (r : Result ConfigError ℤ) (a b : ℤ) → r ≡ ok a → r ≡ ok b → a ≡ b
ok_value r a b h k = cc (h, k)

module _ (T : Toml) where
  open T use {Table, Node, get, as_int}

  -- The integer that stands under a key.
  pub record Holds (root : Table) (key : Text) (z : ℤ) : Type 0 where
    pub node : Node
    pub found : get root key ≡ some node
    pub read : as_int node ≡ some z

  optional_int-Holds :
      (root : Table) (key : Text) (z fallback : ℤ)
      → Holds root key z
      → optional_int T root key fallback ≡ ok z
  unfolding optional_int optional typed_value_if_present
  optional_int-Holds root key z fallback h =
      rw (h.found, typed_value_if_present, h.read, typed_value_if_present) refl

  config_from_table-IfOk :
      (hostname : Option Text) (root : Table) (z : ℤ)
      → Holds root (codes "priority") z
      → IfOk (λ c. c.priority ≡ to_int z) (config_from_table T hostname root)
  unfolding config_from_table IfOk
  config_from_table-IfOk hostname root z h =
      let Q : Config → Type 0 = λ c. c.priority ≡ to_int z in
      bind_IfOk Q (optional_string T root (codes "node_id") (value_or hostname [])) _ (λ node_id _.
        bind_IfOk Q (optional_int T root (codes "priority") default_config.priority) _
          (λ priority p. bind_IfOk Q (required_table T root (codes "vip")) _ (λ vip_table _.
            bind_IfOk Q (vip_from T vip_table) _ (λ vip _.
              bind_IfOk Q
                (part T root (codes "heartbeat") default_config.heartbeat (heartbeat_from T)) _
                (λ heartbeat _.
                  bind_IfOk Q (part T root (codes "health") default_config.health (health_from T)) _
                    (λ health _.
                      bind_IfOk Q
                        (part T root (codes "election") default_config.election (election_from T)) _
                        (λ election _.
                          bind_IfOk Q (part T root (codes "api") default_config.api (api_from T)) _
                            (λ api _.
                              bind_IfOk Q
                                (part T root (codes "mutation_safety")
                                  default_config.mutation_safety (mutation_safety_from T))
                                _
                                (λ safety _.
                                  bind_IfOk Q
                                    (part T root (codes "discovery") default_config.discovery
                                      (discovery_from T))
                                    _
                                    (λ discovery _. bind_IfOk Q (peers_from T root) _ (λ peers _.
                                      ap to_int (
                                        ok_value _ priority z p (
                                          optional_int-Holds root (codes "priority") z
                                            default_config.priority h)))))))))))))

  decoded :
      (hostname : Option Text) (root : Table) (c : Config) (z : ℤ)
      → Holds root (codes "priority") z
      → config_from_table T hostname root ≡ ok c
      → c.priority ≡ to_int z
  unfolding IfOk
  decoded hostname root c z h e =
      subst (IfOk (λ d. d.priority ≡ to_int z)) e (config_from_table-IfOk hostname root z h)

  -- The priority of a config that a table decodes to is an `int`, and it is the integer under the key
  -- "priority" of the table exactly if that integer is in the range of an `int` of 32 bits.
  pub config_from_table-priority_iff :
      (hostname : Option Text) (root : Table) (c : Config) (z : ℤ)
      → Holds root (codes "priority") z
      → config_from_table T hostname root ≡ ok c
      → IsInt c.priority × ((c.priority ≡ z) ↔ IsInt z)
  config_from_table-priority_iff hostname root c z h e =
      subst (λ p. IsInt p × ((p ≡ z) ↔ IsInt z)) (sym (decoded hostname root c z h e))
        (to_int-IsInt z, to_int_exact_iff z)
