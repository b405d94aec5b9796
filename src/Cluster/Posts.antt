-- ===== src/Cluster/Posts.antt =====
-- What holds of every result that a call succeeds with, one rule for each way to build a call.
use terraform_operator.Prelude.{◌≡◌, ap, subst, Bool, true, false, if◌then◌else◌}
use terraform_operator.Cluster.Effects.{Result, ok, err, panic, M, pure, ◌>>=◌, go_on-eq-ok}

abbrev pub value_or : {A : Type 0} → A → Result A → A
value_or d (ok a) = a
value_or d (err e) = d
value_or d panic = d

pub record Post {W A : Type 0} (P : A → Type 0) (m : M W A) : Type 0 where
  pub at : (w : W) {a : A} {w' : W} → m w ≡ (ok a, w') → P a

module _ {W A : Type 0} {P : A → Type 0} where
  pub Post-pure : (a : A) → P a → Post {W = W} P (pure a)
  Post-pure a h = record { at = λ w e. subst P (ap (λ (x : Result A × W). value_or a x.0) e) h }

  pub Post-if : (b : Bool) (m n : M W A) → Post P m → Post P n → Post P (if b then m else n)
  Post-if true m n pm pn = pm
  Post-if false m n pm pn = pn

module _ {W A B : Type 0} {P : B → Type 0} where
  pub Post-bind : (m : M W A) (f : A → M W B) → ((a : A) → Post P (f a)) → Post P (m >>= f)
  Post-bind m f h = record {
    at = λ w e. let (a, v, _, e') = go_on-eq-ok (m w) f e in (h a).at v e';
  }
