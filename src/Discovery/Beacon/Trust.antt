-- ===== src/Discovery/Beacon/Trust.antt =====
-- What an accepted beacon is: the signed block of a wire text, of this cluster, with an identity.
use easy_failover.Base.{
  ◌+◌, ◌^◌, ◌<◌, ◌≤◌, Text, codes, subst, ◌⊎◌, inl, eqb_iff, ◌≡◌, ◌≢◌, refl, sym, ◌∙◌, ap, Bool,
  true, false, not, ◌&&◌, Option, none, some, [], ◌∷◌, ◌++◌, drop, length, length-append, is_empty,
  if◌then◌else◌, arith,
}
use easy_failover.Base.Result.{Result, ok, throw}
use easy_failover.Discovery.Hmac.{hmac_sha256_hex}
use easy_failover.Discovery.Hmac.Compare.{constant_time_equals_iff, length-hmac_sha256_hex}
use easy_failover.Base.Decimal.{decimal}
use easy_failover.Discovery.Beacon.Delimiter.{
  starts_with-append, SplitAt, IsLastPlace, rfind-SplitAt, rfind-IsLastPlace,
}
use easy_failover.Discovery.Beacon.{
  Beacon, BeaconError, missing_signature, sig_delim, rfind, drop_last_newline, parse_fields,
  version_matches, accept_block, verify_parts, verify_split, verify_signed_beacon,
}

-- What `drop_last_newline` leaves: the text, or the text without a newline at its end.
drop_last_newline_cases :
    (t : Text) → (t ≡ drop_last_newline t) ⊎ (t ≡ drop_last_newline t ++ (b'\n' ∷ []))
unfolding drop_last_newline
drop_last_newline_cases [] = inl refl
drop_last_newline_cases (c ∷ []) = ground arith
drop_last_newline_cases (c ∷ d ∷ cs) = ground (arith, drop_last_newline_cases (d ∷ cs))

length-drop_last_newline : (t : Text) → length (drop_last_newline t) ≤ length t
unfolding drop_last_newline
length-drop_last_newline [] = omega arith
length-drop_last_newline (c ∷ []) = ground arith
length-drop_last_newline (c ∷ d ∷ cs) = ground (arith, length-drop_last_newline (d ∷ cs))

-- The wire text is `before`, a newline, "sig=" and `tail`, and no later place has that delimiter. The
-- block is `before` with its newline, and the signature is `tail`, maybe without a newline at its end.
pub record IsSigned (secret wire block signature : Text) : Type 0 where
  pub before : Text
  pub tail : Text
  pub whole : before ++ (codes "\nsig=" ++ tail) ≡ wire
  pub last : (a b : Text) → a ++ (codes "\nsig=" ++ b) ≡ wire → length a ≤ length before
  pub block_is : block ≡ before ++ (b'\n' ∷ [])
  pub signature_is : (tail ≡ signature) ⊎ (tail ≡ signature ++ (b'\n' ∷ []))
  pub matches : signature ≡ hmac_sha256_hex secret block

pub record IsAccepted (cluster block : Text) (b : Beacon) : Type 0 where
  pub parsed : b ≡ parse_fields block
  pub version : (fields : Text) × (codes "v=1\n" ++ fields ≡ block)
  pub same_cluster : b.cluster ≡ cluster
  pub identity : (is_empty b.mac && is_empty b.node_id) ≡ false

version_matches_prefix :
    (block : Text)
    → version_matches block ≡ true
    → (fields : Text) × (codes "v=1\n" ++ fields ≡ block)
unfolding version_matches codes decimal
version_matches_prefix block h = starts_with-append (b'v' ∷ b'=' ∷ b'1' ∷ b'\n' ∷ []) block h

accept_block-IsAccepted :
    (block cluster : Text) (b : Beacon)
    → accept_block block cluster ≡ ok b
    → IsAccepted cluster block b
unfolding accept_block
accept_block-IsAccepted block cluster b h = record {
  parsed = ground arith;
  version = version_matches_prefix block (ground arith);
  same_cluster = ground (arith, eqb_iff (parse_fields block).cluster cluster);
  identity = ground arith;
}

throw_not_ok :
    (e : BeaconError) (b : Beacon) (r : Result BeaconError Beacon) → r ≡ throw e → r ≢ ok b
throw_not_ok e b r h k = cc

checked :
    (t : Bool) (e : BeaconError) (r : Result BeaconError Beacon) (b : Beacon)
    → (if not t then throw e else r) ≡ ok b
    → (t ≡ true) × (r ≡ ok b)
checked true e r b h = (refl, h)
checked false e r b h = absurd (throw_not_ok e b (throw e) refl h)

sig_delim_text : codes "\nsig=" ≡ sig_delim
unfolding codes
sig_delim_text = refl

drop_delimiter : (tail : Text) → drop 5 (sig_delim ++ tail) ≡ tail
drop_delimiter tail = refl

verify_parts_sound :
    (wire secret cluster before tail : Text) (b : Beacon)
    → length wire < 2 ^ 32
    → before ++ (sig_delim ++ tail) ≡ wire
    → IsLastPlace sig_delim wire before
    → verify_parts secret cluster before (sig_delim ++ tail) ≡ ok b
    → (block : Text) × (signature : Text) × IsSigned secret wire block signature
      × IsAccepted cluster block b
unfolding verify_parts
verify_parts_sound wire secret cluster before tail b l w last h =
    let block = before ++ (b'\n' ∷ []) in
    let signature = drop_last_newline tail in
    let w_length : length before + length (sig_delim ++ tail) ≡ length wire =
      sym (length-append before (sig_delim ++ tail)) ∙ ap length w in
    let n : length signature < 2 ^ 32 =
      omega (arith, w_length, length-append sig_delim tail, length-drop_last_newline tail) in
    let m : length (hmac_sha256_hex secret block) < 2 ^ 32 =
      omega (arith, length-hmac_sha256_hex secret block) in
    let (equal, accepted) = checked _ _ _ b h in
    (
      block,
      signature,
      record {
        before = before;
        tail = tail;
        whole = subst (λ d. before ++ (d ++ tail) ≡ wire) (sym sig_delim_text) w;
        last = subst (λ d. IsLastPlace d wire before) (sym sig_delim_text) last;
        block_is = refl;
        signature_is = drop_last_newline_cases tail;
        matches =
            sym ((constant_time_equals_iff (hmac_sha256_hex secret block) signature m n).0 equal);
      },
      accept_block-IsAccepted block cluster b accepted,
    )

verify_split_sound :
    (wire secret cluster : Text) (b : Beacon) (o : Option (Text × Text))
    → ((before rest : Text)
        → o ≡ some (before, rest)
        → SplitAt sig_delim wire before rest × IsLastPlace sig_delim wire before)
    → length wire < 2 ^ 32
    → verify_split secret cluster o ≡ ok b
    → (block : Text) × (signature : Text) × IsSigned secret wire block signature
      × IsAccepted cluster block b
unfolding verify_split
verify_split_sound wire secret cluster b none ih l h =
    absurd (throw_not_ok missing_signature b (throw missing_signature) refl h)
verify_split_sound wire secret cluster b (some (before, rest)) ih l h =
    let ((whole, (tail, e)), last) = ih before rest refl in
    verify_parts_sound wire secret cluster before tail b l
      (subst (λ r. before ++ r ≡ wire) (sym e) whole) last
      (subst (λ r. verify_parts secret cluster before r ≡ ok b) (sym e) h)

-- A wire text shorter than 2 ^ 32 bytes that verifies is a block and a signature, split at the last
-- newline before "sig=", where the signature, maybe followed by a newline, is the HMAC of the block
-- under the secret; the beacon is the parsed block, which starts with the line of version 1, whose
-- cluster is the expected one, and which has an identity.
pub verify_signed_beacon_sound :
    (wire secret cluster : Text) (b : Beacon)
    → length wire < 2 ^ 32
    → verify_signed_beacon wire secret cluster ≡ ok b
    → (block : Text) × (signature : Text) × IsSigned secret wire block signature
      × IsAccepted cluster block b
unfolding verify_signed_beacon
verify_signed_beacon_sound wire secret cluster b l h =
    verify_split_sound wire secret cluster b (rfind sig_delim wire)
      (λ before rest e. (
        rfind-SplitAt sig_delim wire before rest e,
        rfind-IsLastPlace sig_delim wire before rest e,
      ))
      l h
