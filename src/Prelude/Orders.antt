-- ===== src/Prelude/Orders.antt =====
-- Lists without repetition, lists that ascend, and splitting a list at a member.
use terraform_operator.Prelude.{
  refl, inl, inr, ◌⊎◌, String, Bool, true, List, [], ◌∷◌, ◌++◌, ◌≡◌, sym, ap, subst, arith, All,
  Memᴰ, ◌&&◌,
}

module _ {ℓ} {A : Type ℓ} where
  -- A member splits the list.
  pub Memᴰ-split :
      {x : A} (l : List A) → Memᴰ x l → (pre : List A) × (post : List A) × (l ≡ pre ++ x ∷ post)
  Memᴰ-split [] m = elim m [ ]
  Memᴰ-split (y ∷ l) (Memᴰ.head e) = ([], l, ap (λ z. z ∷ l) (sym e))
  Memᴰ-split (y ∷ l) (Memᴰ.tail m) =
      let (pre, post, e) = Memᴰ-split l m in (y ∷ pre, post, ap (λ t. y ∷ t) e)

  -- A test that a closed list passes by evaluation, and what it shows of the members.
  abbrev pub all : (A → Bool) → List A → Bool
  all p [] = true
  all p (x ∷ xs) = p x && all p xs

  pub all-All : (p : A → Bool) (l : List A) → all p l ≡ true → All (λ x. p x ≡ true) l
  all-All p [] h = tt
  all-All p (x ∷ l) h = (ground arith, all-All p l (ground arith))

  pub All-Memᴰ {κ} : (P : A → Type κ) {x : A} (l : List A) → All P l → Memᴰ x l → P x
  All-Memᴰ P [] h m = elim m [ ]
  All-Memᴰ P (y ∷ l) h (Memᴰ.head e) = subst P (sym e) h.0
  All-Memᴰ P (y ∷ l) h (Memᴰ.tail m) = All-Memᴰ P l h.1 m

  pub All-middle {κ} : (P : A → Type κ) (pre post : List A) (x : A) → All P (pre ++ x ∷ post) → P x
  All-middle P [] post x h = h.0
  All-middle P (y ∷ pre) post x h = All-middle P pre post x h.1

  pub All-suffix {κ} : (P : A → Type κ) (pre post : List A) → All P (pre ++ post) → All P post
  All-suffix P [] post h = h
  All-suffix P (y ∷ pre) post h = All-suffix P pre post h.1

  pub All-imp {κ κ'} :
      {P : A → Type κ} {Q : A → Type κ'} → ((x : A) → P x → Q x) → (l : List A) → All P l → All Q l
  All-imp f [] h = tt
  All-imp f (x ∷ l) h = (f x h.0, All-imp f l h.1)

  pub Memᴰ-append : {x : A} (pre : List A) {post : List A} → Memᴰ x post → Memᴰ x (pre ++ post)
  Memᴰ-append [] m = m
  Memᴰ-append (y ∷ pre) m = Memᴰ.tail (Memᴰ-append pre m)

  pub Memᴰ-middle : (pre post : List A) (x : A) → Memᴰ x (pre ++ x ∷ post)
  Memᴰ-middle pre post x = Memᴰ-append pre (Memᴰ.head refl)

  pub Memᴰ-append-cases :
      {x : A} (pre post : List A) → Memᴰ x (pre ++ post) → Memᴰ x pre ⊎ Memᴰ x post
  Memᴰ-append-cases [] post m = inr m
  Memᴰ-append-cases (y ∷ pre) post (Memᴰ.head e) = inl (Memᴰ.head e)
  Memᴰ-append-cases (y ∷ pre) post (Memᴰ.tail m) = elim (Memᴰ-append-cases pre post m) [
    | inl h ↦ inl (Memᴰ.tail h)
    | inr h ↦ inr h
  ]

-- Every earlier element is related to every later one.
abbrev pub pairwise : (String → String → Bool) → List String → Bool
pairwise r [] = true
pairwise r (x ∷ xs) = all (r x) xs && pairwise r xs

module _ (r : String → String → Bool) where
  -- What a split of such a list says of the parts around an element.
  pub pairwise-split :
      (pre post : List String) (x : String)
      → pairwise r (pre ++ x ∷ post) ≡ true
      → All (λ y. r y x ≡ true) pre × All (λ y. r x y ≡ true) post
  pairwise-split [] post x h = (tt, all-All (r x) post (ground arith))
  pairwise-split (y ∷ pre) post x h =
      let rest = pairwise-split pre post x (ground arith) in
      let later = all-All (r y) (pre ++ x ∷ post) (ground arith) in
      ((All-middle (λ z. r y z ≡ true) pre post x later, rest.0), rest.1)
