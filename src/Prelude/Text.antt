-- ===== src/Prelude/Text.antt =====
-- Texts walked a character at a time. The program's names are ASCII, so that a character is a byte.
use Prim.Native.Nat.{◌/◌, ◌%◌, ℕ, zero, suc}
use Prim.Native.Char.{Char, code}
use Prim.Native.String
use Prim.Native.String.{String, [], ◌∷◌}
use mathlib.Core.Bool.{Bool, true, false, ◌&&◌}
use mathlib.Core.Option.{Option, none, some}
use mathlib.Core.List.{List}
use text.Mathlib.Text.{starts_with, ◌==◌}
use terraform_operator.Prelude.Tests.{ltb, if◌then◌else◌, nat_beq}

-- `len(s)`
unfoldable pub text_length : String → ℕ
text_length [] = 0
text_length (c ∷ s) = suc (text_length s)

-- `s[0:i]`
unfoldable pub text_take : ℕ → String → String
text_take zero s = []
text_take (suc i) [] = []
text_take (suc i) (c ∷ s) = c ∷ text_take i s

abbrev pub is_empty : String → Bool
is_empty [] = true
is_empty (c ∷ s) = false

-- `strings.TrimRight(s, cutset)` for a cutset of the one character `k`.
unfoldable pub trim_right : String → ℕ → String
trim_right [] k = []
trim_right (c ∷ s) k =
    let rest = trim_right s k in if is_empty rest && nat_beq (code c) k then [] else c ∷ rest

unfoldable pub last_code : String → Option ℕ
last_code [] = none
last_code (c ∷ s) = if is_empty s then some (code c) else last_code s

-- The list of a text's code points.
abbrev pub codes : String → List ℕ
codes [] = List.[]
codes (c ∷ s) = List.◌∷◌ (code c) (codes s)

-- `strings.HasSuffix(s, suffix)`: the suffix is what is left of the text at some point.
unfoldable pub has_suffix : String → String → Bool
has_suffix [] suffix = suffix == ""
has_suffix (c ∷ s) suffix =
    let shorter = has_suffix s suffix in if (c ∷ s) == suffix then true else shorter

-- `strings.ToUpper`, on ASCII letters.
abbrev letters : List (Char × Char)
letters =
    List.◌∷◌ ("a", "A")
      (List.◌∷◌ ("b", "B")
        (List.◌∷◌ ("c", "C")
          (List.◌∷◌ ("d", "D")
            (List.◌∷◌ ("e", "E")
              (List.◌∷◌ ("f", "F")
                (List.◌∷◌ ("g", "G")
                  (List.◌∷◌ ("h", "H")
                    (List.◌∷◌ ("i", "I")
                      (List.◌∷◌ ("j", "J")
                        (List.◌∷◌ ("k", "K")
                          (List.◌∷◌ ("l", "L")
                            (List.◌∷◌ ("m", "M")
                              (List.◌∷◌ ("n", "N")
                                (List.◌∷◌ ("o", "O")
                                  (List.◌∷◌ ("p", "P")
                                    (List.◌∷◌ ("q", "Q")
                                      (List.◌∷◌ ("r", "R")
                                        (List.◌∷◌ ("s", "S")
                                          (List.◌∷◌ ("t", "T")
                                            (List.◌∷◌ ("u", "U")
                                              (List.◌∷◌ ("v", "V")
                                                (List.◌∷◌ ("w", "W")
                                                  (List.◌∷◌ ("x", "X")
                                                    (List.◌∷◌ ("y", "Y")
                                                      (List.◌∷◌ ("z", "Z")
                                                        (List.[]))))))))))))))))))))))))))

upper_char : List (Char × Char) → Char → Char
upper_char List.[] c = c
upper_char (List.◌∷◌ (small, large) table) c =
    if nat_beq (code small) (code c) then large else upper_char table c

unfoldable pub to_upper : String → String
unfolding upper_char
to_upper [] = []
to_upper (c ∷ s) = upper_char letters c ∷ to_upper s

-- `strings.Split(s, sep)` for a separator of the one character `k`.
unfoldable pub put_char : Char → List String → List String
put_char c List.[] = List.◌∷◌ (c ∷ []) List.[]
put_char c (List.◌∷◌ part parts) = List.◌∷◌ (c ∷ part) parts

unfoldable pub split : String → ℕ → List String
unfolding put_char
split [] k = List.◌∷◌ "" List.[]
split (c ∷ s) k =
    let parts = split s k in if nat_beq (code c) k then List.◌∷◌ "" parts else put_char c parts

-- `strings.Join(parts, sep)`
unfoldable pub join : List String → String → String
join List.[] sep = ""
join (List.◌∷◌ part List.[]) sep = part
join (List.◌∷◌ part (List.◌∷◌ next parts)) sep =
    String.◌++◌ part (String.◌++◌ sep (join (List.◌∷◌ next parts) sep))

-- `strings.Contains(s, part)`
unfoldable pub contains : String → String → Bool
contains [] part = part == ""
contains (c ∷ s) part =
    let later = contains s part in if starts_with (c ∷ s) part then true else later

-- `fmt.Sprint` of a number; `fuel` above the number is enough.
digit : ℕ → String
digit n =
    if nat_beq n 0
    then "0"
    else if nat_beq n 1
    then "1"
    else if nat_beq n 2
    then "2"
    else if nat_beq n 3
    then "3"
    else if nat_beq n 4
    then "4"
    else if nat_beq n 5
    then "5"
    else if nat_beq n 6
    then "6"
    else if nat_beq n 7
    then "7"
    else if nat_beq n 8
    then "8"
    else "9"

decimal_from : ℕ → ℕ → String → String
decimal_from zero n acc = acc
decimal_from (suc fuel) n acc = elim (ltb n 10) [
  | true ↦ String.◌++◌ (digit n) acc
  | false ↦ decimal_from fuel (n / 10) (String.◌++◌ (digit (n % 10)) acc)
]

unfoldable pub decimal : ℕ → String
unfolding decimal_from digit
decimal n = decimal_from (suc n) n ""
