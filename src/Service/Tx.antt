-- ===== src/Service/Tx.antt =====
-- A transaction on a state: it may panic, and where it fails it keeps what it has written so far.
use pilatus.Base.{◌≡◌, refl, ◌∙◌, ap, Option, none, some}
use pilatus.Base.Result.{Result, ok, err}
use pilatus.Recipe.{TransactionError}

abbrev pub Tx : Type 0 → Type 0 → Type 0
Tx S A = S → Option (S × Result TransactionError A)

abbrev pub after :
    {S A B : Type 0}
    → (A → Tx S B)
    → Option (S × Result TransactionError A)
    → Option (S × Result TransactionError B)
after f none = none
after f (some (s, ok a)) = f a s
after f (some (s, err e)) = some (s, err e)

infixl 5 ◌>>=◌
abbrev pub ◌>>=◌ : {S A B : Type 0} → Tx S A → (A → Tx S B) → Tx S B
(m >>= f) s = after f (m s)

infixl 5 ◌>>◌
abbrev pub ◌>>◌ : {S A B : Type 0} → Tx S A → Tx S B → Tx S B
m >> n = m >>= λ a. n

abbrev pub pure : {S A : Type 0} → A → Tx S A
pure a s = some (s, ok a)

abbrev pub fail : {S A : Type 0} → TransactionError → Tx S A
fail e s = some (s, err e)

-- What holds of the state where a transaction ends, by its outcome.
abbrev pub Post :
    {S A : Type 0} → (S → A → Type 0) → (S → Type 0) → S → Result TransactionError A → Type 0
Post Q E s (ok a) = Q s a
Post Q E s (err e) = E s

-- From a state with `P` a transaction does not panic; it ends with `Q` on success and with `E` on
-- an error.
abbrev pub Ends : {S A : Type 0} → (S → Type 0) → Tx S A → (S → A → Type 0) → (S → Type 0) → Type 0
Ends {S} {A} P m Q E =
    (s : S)
    → P s
    → (t : S) × (res : Result TransactionError A) × (m s ≡ some (t, res)) × Post Q E t res

module _ {S A B : Type 0} {P E : S → Type 0} {Q : S → A → Type 0} {R : S → B → Type 0} where
  pub Ends-bind :
      (m : Tx S A) (f : A → Tx S B)
      → Ends P m Q E
      → ((a : A) → Ends (λ s. Q s a) (f a) R E)
      → Ends P (m >>= f) R E
  Ends-bind m f h k s p = let (t, res, e, q) = h s p in go res e q
    where
      go :
          {t : S} (res : Result TransactionError A)
          → m s ≡ some (t, res)
          → Post Q E t res
          → (t' : S) × (res' : Result TransactionError B) × (after f (m s) ≡ some (t', res'))
            × Post R E t' res'
      go {t} (ok a) e q = let (t', res', e', r) = k a t q in (t', res', ap (after f) e ∙ e', r)
      go {t} (err x) e q = (t, err x, ap (after f) e, q)

module _ {S A : Type 0} {P E : S → Type 0} {Q : S → A → Type 0} where
  pub Ends-pure : (a : A) → ((s : S) → P s → Q s a) → Ends P (pure a) Q E
  Ends-pure a h s p = (s, ok a, refl, h s p)

  pub Ends-fail : (x : TransactionError) → ((s : S) → P s → E s) → Ends P (fail {A = A} x) Q E
  Ends-fail x h s p = (s, err x, refl, h s p)
