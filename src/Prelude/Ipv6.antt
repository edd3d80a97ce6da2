-- ===== src/Prelude/Ipv6.antt =====
-- The text of `std::net::Ipv6Addr`: an IPv4-mapped address with its dotted part, and otherwise the
-- first of the longest runs of at least two zero segments written as `::`.
use Prim.Native.Nat.{ℕ, zero, suc, ◌+◌, ◌*◌, ◌/◌, ◌%◌}
use Prim.Native.String.{String, ◌++◌}
use mathlib.Core.Bool.{◌&&◌}
use mathlib.Core.List.{List, [], ◌∷◌}
use tapio.Prelude.Tests.{ltb, ◌==◌, if◌then◌else◌}
use tapio.Prelude.Decimal.{digit, to_string}

abbrev nibble : ℕ → String
nibble d =
    if ltb d 10
    then digit d
    else if d == 10
    then "a"
    else if d == 11
    then "b"
    else if d == 12
    then "c"
    else if d == 13
    then "d"
    else if d == 14
    then "e"
    else "f"

-- `{:x}` of a segment of 16 bits.
unfoldable pub hex_segment : ℕ → String
hex_segment n =
    if ltb n 16
    then nibble n
    else if ltb n 256
    then nibble (n / 16) ++ nibble (n % 16)
    else if ltb n 4096
    then nibble (n / 256) ++ (nibble (n / 16 % 16) ++ nibble (n % 16))
    else nibble (n / 4096) ++ (nibble (n / 256 % 16) ++ (nibble (n / 16 % 16) ++ nibble (n % 16)))

unfoldable pub segments : List ℕ → List ℕ
segments (a ∷ b ∷ rest) = (a * 256 + b) ∷ segments rest
segments rest = []

-- The start and the length of the longest run of zeros, and of the run that ends here.
unfoldable pub longest_run : ℕ → ℕ × ℕ → ℕ × ℕ → List ℕ → ℕ × ℕ
longest_run i longest current [] = longest
longest_run i (start, len) (here, run) (s ∷ rest) =
    let first = if run == 0 then i else here in
    let zeros =
      longest_run (i + 1) (if ltb len (run + 1) then (first, run + 1) else (start, len))
        (first, run + 1) rest in
    let others = longest_run (i + 1) (start, len) (0, 0) rest in if s == 0 then zeros else others

unfoldable pub colon_separated : List ℕ → String
unfolding hex_segment
colon_separated [] = ""
colon_separated (s ∷ []) = hex_segment s
colon_separated (s ∷ t ∷ rest) = hex_segment s ++ (":" ++ colon_separated (t ∷ rest))

unfoldable pub dotted : ℕ → ℕ → ℕ → ℕ → String
unfolding to_string
dotted a b c d =
    to_string a ++ ("." ++ (to_string b ++ ("." ++ (to_string c ++ ("." ++ to_string d)))))

abbrev take : ℕ → List ℕ → List ℕ
take zero segs = []
take (suc n) [] = []
take (suc n) (s ∷ segs) = s ∷ take n segs

abbrev drop : ℕ → List ℕ → List ℕ
drop zero segs = segs
drop (suc n) [] = []
drop (suc n) (s ∷ segs) = drop n segs

abbrev with_run : List ℕ → ℕ × ℕ → String
with_run segs (start, len) =
    if ltb 1 len
    then colon_separated (take start segs) ++ ("::" ++ colon_separated (drop (start + len) segs))
    else colon_separated segs

abbrev display : List ℕ → String
display (a ∷ b ∷ c ∷ d ∷ e ∷ f ∷ g ∷ h ∷ []) =
    let segs = a ∷ b ∷ c ∷ d ∷ e ∷ f ∷ g ∷ h ∷ [] in
    if a == 0 && b == 0 && c == 0 && d == 0 && e == 0 && f == 0xffff
    then "::ffff:" ++ dotted (g / 256) (g % 256) (h / 256) (h % 256)
    else with_run segs (longest_run 0 (0, 0) (0, 0) segs)
display segs = with_run segs (longest_run 0 (0, 0) (0, 0) segs)

unfoldable pub ipv6_to_string : List ℕ → String
unfolding segments longest_run colon_separated dotted
ipv6_to_string octets = display (segments octets)
