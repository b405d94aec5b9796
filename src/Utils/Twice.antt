-- ===== src/Utils/Twice.antt =====
-- ListRemoveStr of pkg/utils/utils.go on a list that holds the element twice.
use terraform_operator.Prelude.{
  ℕ, suc, ◌+◌, ◌-◌, ◌≤◌, String, false, List, [], ◌∷◌, ◌++◌, ◌≡◌, refl, sym, ap, ap₂, ◌∙◌, some,
  none, take, drop, get_elem?, length, arith, leb, length-append, append_assoc, append-nil, eq_refl,
}
use terraform_operator.Utils.{cut_at, remove_loop, list_remove_str}
use terraform_operator.Utils.Strings.{
  Lacks, tail_copy, remove_loop_quiet, remove_loop_cut, list_remove_str_cut, take-length-append,
  drop-length-append, drop-add-append, leb_of_le, get_elem?-length-append,
}

leb_of_lt : (a b : ℕ) → b + 1 ≤ a → leb a b ≡ false
leb_of_lt a b h = ground arith

get_elem?-after :
    (pre : List String) (r s : String) → get_elem? (pre ++ r ∷ s ∷ []) (length pre + 1) ≡ some s
get_elem?-after [] r s = refl
get_elem?-after (x ∷ pre) r s =
    let e : suc (length pre) + 1 ≡ suc (length pre + 1) = omega arith in
    rw e (get_elem?-after pre r s)

take-after :
    (pre : List String) (r s : String) → take (length pre + 1) (pre ++ r ∷ s ∷ []) ≡ pre ++ r ∷ []
take-after [] r s = refl
take-after (x ∷ pre) r s =
    let e : suc (length pre) + 1 ≡ suc (length pre + 1) = omega arith in
    rw e (ap (λ l. x ∷ l) (take-after pre r s))

-- What stands behind the end of the slice still reads `s`, and cannot be cut out.
module _ (s : String) (pre : List String) where
  remove_loop_behind :
      (len : ℕ)
      → len ≤ length pre + 1
      → remove_loop 1 (length pre + 1) (pre ++ s ∷ s ∷ []) len s ≡ none
  unfolding remove_loop cut_at
  remove_loop_behind len h =
      ground (
        arith,
        get_elem?-after pre s s,
        eq_refl s,
        leb_of_lt (length pre + 1 + 1) len (omega arith),
      )

  cut_at_end :
      cut_at (length pre) (pre ++ s ∷ s ∷ []) (length pre + 1)
      ≡ some (pre ++ s ∷ s ∷ [], length pre)
  unfolding cut_at
  cut_at_end =
      let one : length pre + 1 - 1 ≡ length pre = omega arith in
      rw
        (
          take-length-append pre (s ∷ s ∷ []),
          take-after pre s s,
          drop-add-append pre (s ∷ []) 1,
          append-nil pre,
          one,
          drop-length-append pre (s ∷ s ∷ []),
          leb_of_le (length pre + 1) (length pre + 1) (omega arith),
        )
        refl

  -- The last two rounds, of which the first cuts the end of the slice away.
  remove_loop_end : remove_loop 2 (length pre) (pre ++ s ∷ s ∷ []) (length pre + 1) s ≡ none
  remove_loop_end =
      remove_loop_cut s 1 (length pre) (length pre + 1) (pre ++ s ∷ s ∷ []) (pre ++ s ∷ s ∷ [])
        (length pre) (get_elem?-length-append pre (s ∷ []) s) cut_at_end
      ∙ remove_loop_behind (length pre) (omega arith)

module _ (s : String) (pre : List String) where
  tail_copy-last : (mid : List String) → tail_copy pre (mid ++ s ∷ []) s ≡ s ∷ []
  tail_copy-last mid =
      let size : length (mid ++ s ∷ []) ≡ length (s ∷ mid) =
        omega (arith, length-append {0} mid (s ∷ [])) in
      drop-add-append pre (s ∷ mid ++ s ∷ []) (length (mid ++ s ∷ []))
      ∙ ap (λ (k : ℕ). drop k (s ∷ mid ++ s ∷ [])) size
      ∙ drop-length-append mid (s ∷ [])

  -- The rounds behind the first cut.
  remove_loop-second :
      (mid : List String)
      → Lacks s mid
      → remove_loop
          (suc (length mid))
          (length pre + 1)
          (pre ++ mid ++ s ∷ s ∷ [])
          (length pre + suc (length mid))
          s
        ≡ none
  remove_loop-second [] h =
      ap (λ (l : List String). remove_loop 1 (length pre + 1) (l ++ s ∷ s ∷ []) (length pre + 1) s)
        (append-nil pre)
      ∙ remove_loop_behind s pre (length pre + 1) (omega arith)
  remove_loop-second (m ∷ mid) h =
      let before : List String = pre ++ m ∷ mid in
      let arr : List String = before ++ s ∷ s ∷ [] in
      let size : length before ≡ length pre + suc (length mid) =
        omega (arith, length-append {0} pre (m ∷ mid)) in
      let len : ℕ = length pre + suc (suc (length mid)) in
      let here : drop (length pre + 1) arr ≡ mid ++ s ∷ s ∷ [] =
        ap (λ l. drop (length pre + 1) l) (append_assoc pre (m ∷ mid) (s ∷ s ∷ []))
        ∙ drop-add-append pre (m ∷ (mid ++ s ∷ s ∷ [])) 1 in
      ap (λ (k : ℕ). remove_loop k (length pre + 1) arr len s) {y = length mid + 2} (omega arith)
      ∙ remove_loop_quiet s mid (s ∷ s ∷ []) arr (length pre + 1) len 2 here h.1
      ∙ ap₂ (λ (i l : ℕ). remove_loop 2 i arr l s) {y = length before} {v = length before + 1}
          (omega arith) (omega arith)
      ∙ remove_loop_end s before

-- `ListRemoveStr` panics if the element occurs twice, the second time as the last of the list: the
-- loop still visits the position behind the first cut's end, and cuts there.
pub list_remove_str_twice :
    (pre mid : List String) (s : String)
    → Lacks s pre
    → Lacks s mid
    → list_remove_str (pre ++ s ∷ mid ++ s ∷ []) s ≡ none
list_remove_str_twice pre mid s h h' =
    let post : List String = mid ++ s ∷ [] in
    let size : length post ≡ suc (length mid) = omega (arith, length-append {0} mid (s ∷ [])) in
    let moved : pre ++ post ++ tail_copy pre post s ≡ pre ++ mid ++ s ∷ s ∷ [] =
      ap (λ t. pre ++ post ++ t) (tail_copy-last s pre mid)
      ∙ ap (λ l. l ++ s ∷ []) (sym (append_assoc pre mid (s ∷ [])))
      ∙ append_assoc (pre ++ mid) (s ∷ []) (s ∷ []) in
    ap (λ l. list_remove_str l s) (append_assoc pre (s ∷ mid) (s ∷ []))
    ∙ list_remove_str_cut pre post s h
    ∙ ap₂ (λ (arr : List String) (k : ℕ). remove_loop k (length pre + 1) arr (length pre + k) s)
        moved size
    ∙ remove_loop-second s pre mid h'
