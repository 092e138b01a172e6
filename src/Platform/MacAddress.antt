-- ===== src/Platform/MacAddress.antt =====
-- platform/linux/LinuxMacAddress.cpp. The first line of a file is a parameter, `none` if the file cannot
-- be opened.
use easy_failover.Base.{
  ◌==◌, Text, codes, eqb, Bool, ◌||◌, Option, none, some, [], ◌∷◌, map, any, is_empty,
  if◌then◌else◌,
}
use easy_failover.Base.Search.{join, to_lower, trim_end}
use easy_failover.Platform.Ownership.{is_space}

-- A name that is not one path component.
is_odd : Text → Bool
is_odd interface = any (λ c. (c == b'/') || (c == b'.') || is_space c) interface

-- The bytes that std::isspace holds of.
white_space : Text
white_space = 9 ∷ 10 ∷ 11 ∷ 12 ∷ 13 ∷ 32 ∷ []

usable : Text → Text
usable mac = if is_empty mac || eqb mac (codes "00:00:00:00:00:00") then [] else mac

normalized : Option Text → Text
unfolding usable white_space
normalized none = []
normalized (some line) = usable (map to_lower (trim_end white_space line))

pub read_interface_mac : (Text → Option Text) → Text → Text
unfolding is_odd normalized
read_interface_mac first_line interface =
    if is_empty interface
    then []
    else if is_odd interface
    then []
    else normalized
        (first_line (join (codes "/sys/class/net/" ∷ interface ∷ codes "/address" ∷ [])))
