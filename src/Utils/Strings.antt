-- ===== src/Utils/Strings.antt =====
-- The string lists of utils.go: membership, and removal in place.
use native.Mathlib.Nat.{add-zero}
use terraform_operator.Prelude.{
  ℕ, zero, suc, ◌+◌, ◌-◌, ◌≤◌, String, true, false, List, [], ◌∷◌, ◌++◌, ◌≡◌, ◌≢◌, ◌↔◌, refl, sym,
  ap, ap₂, ◌∙◌, some, take, drop, get_elem?, length, All, Memᴰ, arith, eq_iff, eq_refl, text_cases,
  inl, inr, leb, append-nil, length-append, All-append, append_assoc, subst,
}
use terraform_operator.Utils.{list_contains_str, cut_at, remove_loop, list_remove_str}

list_contains_str-Memᴰ : (s : List String) (e : String) → list_contains_str s e ≡ true → Memᴰ e s
unfolding list_contains_str
list_contains_str-Memᴰ [] e h = cc
list_contains_str-Memᴰ (a ∷ s) e h = elim (text_cases a e) [
  | inl (p, _) ↦ Memᴰ.head (sym p)
  | inr (_, p) ↦ Memᴰ.tail (list_contains_str-Memᴰ s e (rw p at h))
]

Memᴰ-list_contains_str : {e : String} (s : List String) → Memᴰ e s → list_contains_str s e ≡ true
unfolding list_contains_str
Memᴰ-list_contains_str [] m = elim m [ ]
Memᴰ-list_contains_str {e} (a ∷ s) (Memᴰ.head p) = ground (arith, eq_iff a e)
Memᴰ-list_contains_str {e} (a ∷ s) (Memᴰ.tail m) = ground (arith, Memᴰ-list_contains_str s m)

-- `ListContainsStr` answers true exactly for the members of the list.
pub list_contains_str_iff :
    (s : List String) (e : String) → (list_contains_str s e ≡ true) ↔ Memᴰ e s
list_contains_str_iff s e = (list_contains_str-Memᴰ s e, Memᴰ-list_contains_str s)

-- No element of the list is `s`.
abbrev pub Lacks : String → List String → Type 0
Lacks s list = All (λ v. v ≢ s) list

pub Lacks-list_contains_str :
    (list : List String) (s : String) → Lacks s list → list_contains_str list s ≡ false
unfolding list_contains_str
Lacks-list_contains_str [] s h = refl
Lacks-list_contains_str (a ∷ list) s (n, h) =
    ground (arith, eq_iff a s, Lacks-list_contains_str list s h)

get_elem?-drop :
    (i : ℕ) (arr : List String) {v : String} {rest : List String}
    → drop i arr ≡ v ∷ rest
    → (get_elem? arr i ≡ some v) × (drop (i + 1) arr ≡ rest)
get_elem?-drop zero [] e = cc
get_elem?-drop zero (x ∷ arr) e = ground arith
get_elem?-drop (suc i) [] e = cc
get_elem?-drop (suc i) (x ∷ arr) e = ground (arith, get_elem?-drop i arr e)

module _ (s : String) where
  -- A round that reads another element goes on to the next position.
  remove_loop_skip :
      (rounds i len : ℕ) (arr : List String) (v : String)
      → get_elem? arr i ≡ some v
      → v ≢ s
      → remove_loop (suc rounds) i arr len s ≡ remove_loop rounds (i + 1) arr len s
  unfolding remove_loop
  remove_loop_skip rounds i len arr v here n = ground (arith, eq_iff v s)

  -- The rounds that read no `s` change nothing.
  pub remove_loop_quiet :
      (seen rest arr : List String) (i len rounds : ℕ)
      → drop i arr ≡ seen ++ rest
      → Lacks s seen
      → remove_loop (length seen + rounds) i arr len s
        ≡ remove_loop rounds (i + length seen) arr len s
  remove_loop_quiet [] rest arr i len rounds e h =
      ap₂ (λ (k j : ℕ). remove_loop k j arr len s) (omega arith) (omega arith)
  remove_loop_quiet (v ∷ seen) rest arr i len rounds e (n, h) =
      let (here, later) = get_elem?-drop i arr e in
      ap (λ (k : ℕ). remove_loop k i arr len s) (omega arith)
      ∙ remove_loop_skip (length seen + rounds) i len arr v here n
      ∙ remove_loop_quiet seen rest arr (i + 1) len rounds later h
      ∙ ap (λ (j : ℕ). remove_loop rounds j arr len s) (omega arith)

  -- The round that reads `s` at position `i` cuts it out of the array.
  pub remove_loop_cut :
      (rounds i len : ℕ) (arr arr' : List String) (len' : ℕ)
      → get_elem? arr i ≡ some s
      → cut_at i arr len ≡ some (arr', len')
      → remove_loop (suc rounds) i arr len s ≡ remove_loop rounds (i + 1) arr' len' s
  unfolding remove_loop
  remove_loop_cut rounds i len arr arr' len' here cut = ground (arith, eq_refl s)

pub take-length-append : (xs ys : List String) → take (length xs) (xs ++ ys) ≡ xs
take-length-append [] ys = refl
take-length-append (x ∷ xs) ys = ap (λ l. x ∷ l) (take-length-append xs ys)

pub drop-length-append : (xs ys : List String) → drop (length xs) (xs ++ ys) ≡ ys
drop-length-append [] ys = refl
drop-length-append (x ∷ xs) ys = drop-length-append xs ys

take_all : (xs : List String) → take (length xs) xs ≡ xs
take_all [] = refl
take_all (x ∷ xs) = ap (λ l. x ∷ l) (take_all xs)

-- Dropping past a prefix is dropping from what follows it.
pub drop-add-append : (pre l : List String) (k : ℕ) → drop (length pre + k) (pre ++ l) ≡ drop k l
drop-add-append [] l k = ap (λ (j : ℕ). drop j l) {y = k} (omega arith)
drop-add-append (x ∷ pre) l k =
    let e : suc (length pre) + k ≡ suc (length pre + k) = omega arith in
    rw e (drop-add-append pre l k)

Lacks-drop : (k : ℕ) (s : String) (post : List String) → Lacks s post → Lacks s (drop k post)
Lacks-drop zero s post h = h
Lacks-drop (suc k) s [] h = h
Lacks-drop (suc k) s (x ∷ post) h = Lacks-drop k s post h.1

pub leb_of_le : (a b : ℕ) → a ≤ b → leb a b ≡ true
leb_of_le a b h = ground arith

sub_one_suc : (n : ℕ) → suc n - 1 ≡ n
sub_one_suc n = omega arith

-- What the cut leaves in the array: the rest moved down, and the last elements once more.
module _ (pre post : List String) (s : String) where
  abbrev pub tail_copy : List String
  tail_copy = drop (length pre + length post) (pre ++ s ∷ post)

  cut_at_one :
      cut_at (length pre) (pre ++ s ∷ post) (length (pre ++ s ∷ post))
      ≡ some (pre ++ post ++ tail_copy, length pre + length post)
  unfolding cut_at
  cut_at_one =
      let total : length (pre ++ s ∷ post) ≡ suc (length pre + length post) =
        omega (arith, length-append {0} pre (s ∷ post)) in
      rw (
        take_all (pre ++ s ∷ post),
        take-length-append pre (s ∷ post),
        drop-add-append pre (s ∷ post) 1,
        total,
        leb_of_le (length pre + 1) (suc (length pre + length post)) (omega arith),
        sub_one_suc (length pre + length post),
      )

pub get_elem?-length-append :
    (pre post : List String) (s : String) → get_elem? (pre ++ s ∷ post) (length pre) ≡ some s
get_elem?-length-append [] post s = refl
get_elem?-length-append (x ∷ pre) post s = get_elem?-length-append pre post s

length-drop_last : (y : String) (post : List String) → length (drop (length post) (y ∷ post)) ≡ 1
length-drop_last y [] = refl
length-drop_last y (z ∷ post) = length-drop_last z post

take_moved :
    (pre post tail : List String)
    → take (length pre + length post) (pre ++ post ++ tail) ≡ pre ++ post
take_moved pre post tail =
    ap (λ (k : ℕ). take k (pre ++ post ++ tail)) {y = length (pre ++ post)}
      (omega (arith, length-append {0} pre post))
    ∙ take-length-append (pre ++ post) tail

-- The second reading of the last element, as a suffix of the rest.
tail_copy-cons :
    (pre post : List String) (y s : String)
    → tail_copy pre (y ∷ post) s ≡ drop (length post) (y ∷ post)
tail_copy-cons pre post y s = drop-add-append pre (s ∷ y ∷ post) (suc (length post))

-- After the cut the loop reads the rest, moved down, and the last element a second time.
remove_loop-after_cut :
    (pre post : List String) (s : String)
    → Lacks s post
    → remove_loop
        (length post)
        (length pre + 1)
        (pre ++ post ++ tail_copy pre post s)
        (length pre + length post)
        s
      ≡ some (pre ++ post)
unfolding remove_loop
remove_loop-after_cut pre [] s h = ap some (take_moved pre [] (tail_copy pre [] s))
remove_loop-after_cut pre (y ∷ post) s h =
    let tail : List String = tail_copy pre (y ∷ post) s in
    let copied : tail ≡ drop (length post) (y ∷ post) = tail_copy-cons pre post y s in
    let rounds : suc (length post) ≡ length (post ++ tail) + 0 = omega (
      arith,
      length-append {0} post tail,
      ap (λ l. length {A = String} l) copied,
      length-drop_last y post,
    ) in
    let here : drop (length pre + 1) (pre ++ y ∷ post ++ tail) ≡ (post ++ tail) ++ [] =
      ap (λ l. drop (length pre + 1) l) (append_assoc pre (y ∷ post) tail)
      ∙ drop-add-append pre (y ∷ post ++ tail) 1
      ∙ sym (append-nil (post ++ tail)) in
    let lacks : Lacks s (post ++ tail) =
      All-append (λ v. v ≢ s) post tail h.1
        (subst (Lacks s) (sym copied) (Lacks-drop (length post) s (y ∷ post) h)) in
    ap
      (λ (k : ℕ).
        remove_loop k (length pre + 1) (pre ++ y ∷ post ++ tail) (length pre + suc (length post)) s)
      rounds
    ∙ remove_loop_quiet s (post ++ tail) [] (pre ++ y ∷ post ++ tail) (length pre + 1)
        (length pre + suc (length post)) 0 here lacks
    ∙ ap some (take_moved pre (y ∷ post) tail)

-- `ListRemoveStr` of a list that lacks the element returns it as it is.
pub list_remove_str-Lacks :
    (list : List String) (s : String) → Lacks s list → list_remove_str list s ≡ some list
unfolding list_remove_str
list_remove_str-Lacks list s h =
    ap (λ (k : ℕ). remove_loop k 0 list (length list) s) (sym (add-zero (length list)))
    ∙ remove_loop_quiet s list [] list 0 (length list) 0 (sym (append-nil list)) h
    ∙ ap some (take_all list)

-- `ListRemoveStr` up to its first cut.
pub list_remove_str_cut :
    (pre post : List String) (s : String)
    → Lacks s pre
    → list_remove_str (pre ++ s ∷ post) s
      ≡ remove_loop
          (length post)
          (length pre + 1)
          (pre ++ post ++ tail_copy pre post s)
          (length pre + length post)
          s
unfolding list_remove_str
list_remove_str_cut pre post s h =
    let arr : List String = pre ++ s ∷ post in
    let rounds : length arr ≡ length pre + suc (length post) =
      omega (arith, length-append {0} pre (s ∷ post)) in
    ap (λ (k : ℕ). remove_loop k 0 arr (length arr) s) rounds
    ∙ remove_loop_quiet s pre (s ∷ post) arr 0 (length arr) (suc (length post)) refl h
    ∙ ap (λ (i : ℕ). remove_loop (suc (length post)) i arr (length arr) s) {y = length pre}
        (omega arith)
    ∙ remove_loop_cut s (length post) (length pre) (length arr) arr
        (pre ++ post ++ tail_copy pre post s) (length pre + length post)
        (get_elem?-length-append pre post s) (cut_at_one pre post s)

-- `ListRemoveStr` takes out the element that occurs once, and keeps the others in order.
pub list_remove_str_once :
    (pre post : List String) (s : String)
    → Lacks s pre
    → Lacks s post
    → list_remove_str (pre ++ s ∷ post) s ≡ some (pre ++ post)
list_remove_str_once pre post s hpre hpost =
    list_remove_str_cut pre post s hpre ∙ remove_loop-after_cut pre post s hpost
