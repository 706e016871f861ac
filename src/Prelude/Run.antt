-- ===== src/Prelude/Run.antt =====
-- The result of a C function that works on a state: it returns a value, it returns -1 (the state
-- may have changed before), or it has undefined behaviour, such as a read through NULL.
use mathlib.Core.Path.{◌≡◌, refl}
use mathlib.Core.Option.{Option, none, some}

pub data Run (S A : Type 0) : Type 0 where
  ok : A → S → Run S A
  fail : S → Run S A
  crash : Run S A

-- A command of the language of the model.
abbrev pub Cmd : Type 0 → Type 0 → Type 0
Cmd S A = S → Run S A

module _ {S : Type 0} where
  abbrev pub pure : {A : Type 0} → A → Cmd S A
  pure a s = ok a s

  -- `return -1`
  abbrev pub failure : {A : Type 0} → Cmd S A
  failure s = fail s

  -- undefined behaviour
  abbrev pub undefined : {A : Type 0} → Cmd S A
  undefined s = crash

  abbrev pub get : Cmd S S
  get s = ok s s

  abbrev pub put : S → Cmd S (Unit {0})
  put s _ = ok tt s

  abbrev pub modify : (S → S) → Cmd S (Unit {0})
  modify f s = ok tt (f s)

  abbrev pub and_then : {A B : Type 0} → Run S A → (A → Cmd S B) → Run S B
  and_then (ok a s) k = k a s
  and_then (fail s) k = fail s
  and_then crash k = crash

  infixl 5 ◌>>=◌ ◌>>◌
  abbrev pub ◌>>=◌ : {A B : Type 0} → Cmd S A → (A → Cmd S B) → Cmd S B
  (m >>= k) s = and_then (m s) k

  abbrev pub ◌>>◌ : {A B : Type 0} → Cmd S A → Cmd S B → Cmd S B
  m >> k = m >>= λ _. k

  abbrev pub caught : {A : Type 0} → Run S A → Run S (Option A)
  caught (ok a s) = ok (some a) s
  caught (fail s) = ok none s
  caught crash = crash

  -- The caller looks at the code that was returned, or drops it: `none` stands for -1.
  abbrev pub attempt : {A : Type 0} → Cmd S A → Cmd S (Option A)
  attempt m s = caught (m s)

  -- dereference of a pointer: `none` is NULL
  abbrev pub deref : {A : Type 0} → Option A → Cmd S A
  deref none = undefined
  deref (some a) = pure a

  -- Total correctness with both ways out: `P` of a returned value, `Q` of the state at a -1.
  pub data Ends {A : Type 0} (P : A → S → Type 0) (Q : S → Type 0) : Run S A → Type 0 where
    returns : {a : A} {s : S} → P a s → Ends P Q (ok a s)
    fails : {s : S} → Q s → Ends P Q (fail s)

  -- The run returns a value that satisfies `P`.
  abbrev pub Returns : {A : Type 0} → (A → S → Type 0) → Run S A → Type 0
  Returns P r = Ends P (λ _. ⊥) r

  -- The run returns -1 in a state that satisfies `Q`.
  abbrev pub Fails : {A : Type 0} → (S → Type 0) → Run S A → Type 0
  Fails Q r = Ends (λ _ _. ⊥) Q r

  pub bind :
      {A B : Type 0} {P : A → S → Type 0} {Q : S → Type 0} {R : B → S → Type 0} {r : Run S A}
      {k : A → Cmd S B}
      → Ends P Q r
      → ((a : A) (s : S) → P a s → Ends R Q (k a s))
      → Ends R Q (and_then r k)
  bind (returns p) next = next _ _ p
  bind (fails q) next = fails q

  -- after a call that cannot fail
  pub bind_ok :
      {A B : Type 0} {P : A → S → Type 0} {Q : S → Type 0} {R : B → S → Type 0} {r : Run S A}
      {k : A → Cmd S B}
      → Returns P r
      → ((a : A) (s : S) → P a s → Ends R Q (k a s))
      → Ends R Q (and_then r k)
  bind_ok (returns p) next = next _ _ p
  bind_ok (fails q) next = absurd q

  pub mono :
      {A : Type 0} {P R : A → S → Type 0} {Q : S → Type 0} {r : Run S A}
      → Ends P Q r
      → ((a : A) (s : S) → P a s → R a s)
      → Ends R Q r
  mono (returns p) weaken = returns (weaken _ _ p)
  mono (fails q) weaken = fails q

  pub mono_both :
      {A : Type 0} {P R : A → S → Type 0} {Q T : S → Type 0} {r : Run S A}
      → Ends P Q r
      → ((a : A) (s : S) → P a s → R a s)
      → ((s : S) → Q s → T s)
      → Ends R T r
  mono_both (returns p) f g = returns (f _ _ p)
  mono_both (fails q) f g = fails (g _ q)

  pub caught-ok :
      {A : Type 0} {P : A → S → Type 0} {r : Run S A}
      → Returns P r
      → Returns (λ o s. (a : A) × (o ≡ some a) × P a s) (caught r)
  caught-ok (returns p) = returns (_, refl, p)
  caught-ok (fails q) = absurd q

  -- A run that returns, as an equation.
  pub returned :
      {A : Type 0} {P : A → S → Type 0} {r : Run S A}
      → Returns P r
      → (a : A) × (s : S) × (r ≡ ok a s) × P a s
  returned (returns p) = (_, _, refl, p)
  returned (fails q) = absurd q

  -- The same first step, followed by steps that do the same.
  pub bind_cong :
      {A B : Type 0} (r : Run S A) {k l : A → Cmd S B}
      → ((a : A) (s : S) → k a s ≡ l a s)
      → and_then r k ≡ and_then r l
  bind_cong (ok a s) same = same a s
  bind_cong (fail s) same = refl
  bind_cong crash same = refl

  -- A run that cannot return -1.
  pub not_fails :
      {A : Type 0} {P R : A → S → Type 0} {Q : S → Type 0} {r : Run S A}
      → Ends P Q r
      → ((a : A) (s : S) → P a s → R a s)
      → ((s : S) → Q s → ⊥)
      → Returns R r
  not_fails (returns p) f never = returns (f _ _ p)
  not_fails (fails q) f never = absurd (never _ q)
