-- ===== src/Routes/Handler.antt =====
-- A handler as a chain of steps on the hub: a step goes on with a value, refuses with a status, or
-- panics, as `unreachable!()` does. What it did to the hub stands in each case.
use loca.Base.{◌≡◌, refl, Bool, true, false, arith, Result, ok, err}
use loca.Hub.State.{Hub}

pub data Status : Type 0 where
  success created no_content : Status
  bad_request unauthorized forbidden not_found conflict service_unavailable : Status

pub data Run (A : Type 0) : Type 0 where
  next : A → Hub → Run A
  refused : Status → Hub → Run A
  panicked : Hub → Run A

abbrev pub Handler : Type 0 → Type 0
Handler A = Hub → Run A

abbrev pub reply : {A : Type 0} → A → Handler A
reply a h = next a h

abbrev pub refuse : {A : Type 0} → Status → Handler A
refuse s h = refused s h

abbrev pub panic : {A : Type 0} → Handler A
panic h = panicked h

abbrev pub guard : Bool → Status → Handler (Unit {0})
guard true s h = next tt h
guard false s h = refused s h

-- A call on the hub.
abbrev pub call : {A : Type 0} → (Hub → Hub × A) → Handler A
call f h = next (f h).1 (f h).0

abbrev pub and_then : {A B : Type 0} → Run A → (A → Handler B) → Run B
and_then (next a h) k = k a h
and_then (refused s h) k = refused s h
and_then (panicked h) k = panicked h

infixl 5 ◌>>=◌ ◌>>◌
abbrev pub ◌>>=◌ : {A B : Type 0} → Handler A → (A → Handler B) → Handler B
m >>= k = λ h. and_then (m h) k

abbrev pub ◌>>◌ : {A B : Type 0} → Handler A → Handler B → Handler B
m >> n = m >>= λ _. n

-- What a call answers, or its refusal.
abbrev pub unwrap : {A : Type 0} → Result A Status → Handler A
unwrap (ok a) h = next a h
unwrap (err s) h = refused s h

-- A run goes on only if its parts do.
and_then-next :
    {A B : Type 0} (r : Run A) (k : A → Handler B) {b : B} {h' : Hub}
    → and_then r k ≡ next b h'
    → (a : A) × (h₁ : Hub) × (r ≡ next a h₁) × (k a h₁ ≡ next b h')
and_then-next (next a h₁) k e = (a, h₁, refl, e)
and_then-next (refused s h₁) k e = cc
and_then-next (panicked h₁) k e = cc

pub bind-next :
    {A B : Type 0} (m : Handler A) (k : A → Handler B) (h : Hub) {b : B} {h' : Hub}
    → (m >>= k) h ≡ next b h'
    → (a : A) × (h₁ : Hub) × (m h ≡ next a h₁) × (k a h₁ ≡ next b h')
bind-next m k h e = and_then-next (m h) k e

-- A guard goes on where its test holds, and the hub stays.
pub guard-next :
    (b : Bool) (s : Status) (h h' : Hub) → guard b s h ≡ next tt h' → (b ≡ true) × (h ≡ h')
guard-next true s h h' e = ground arith
guard-next false s h h' e = cc

-- A run that ends as it should: it does not panic, what it goes on with meets `Q`, and what a refusal
-- leaves meets `E`.
abbrev pub Safe : {A : Type 0} → (Hub → Type 0) → (A → Hub → Type 0) → Run A → Type 0
Safe E Q (next a h) = Q a h
Safe E Q (refused s h) = E h
Safe E Q (panicked h) = ⊥

module _ (E : Hub → Type 0) where
  and_then-Safe :
      {A B : Type 0} (Q : A → Hub → Type 0) (R : B → Hub → Type 0) (r : Run A) (k : A → Handler B)
      → Safe E Q r
      → ((a : A) (h : Hub) → Q a h → Safe E R (k a h))
      → Safe E R (and_then r k)
  and_then-Safe Q R (next a h) k p second = second a h p
  and_then-Safe Q R (refused s h) k p second = p
  and_then-Safe Q R (panicked h) k p second = p

  pub bind-Safe :
      {A B : Type 0} (Q : A → Hub → Type 0) (R : B → Hub → Type 0) (m : Handler A)
      (k : A → Handler B) (h : Hub)
      → Safe E Q (m h)
      → ((a : A) (h₁ : Hub) → Q a h₁ → Safe E R (k a h₁))
      → Safe E R ((m >>= k) h)
  bind-Safe Q R m k h first second = and_then-Safe Q R (m h) k first second

  module _ (Q : Hub → Type 0) (weaken : (h : Hub) → Q h → E h) where
    pub guard-Safe :
        (b : Bool) (s : Status) (h : Hub)
        → Q h
        → Safe E (λ (_ : Unit {0}) h'. (b ≡ true) × Q h') (guard b s h)
    guard-Safe true s h p = (refl, p)
    guard-Safe false s h p = weaken h p

    -- A call whose answer may be a refusal.
    pub asked-Safe :
        {A : Type 0} (r : Hub × Result A Status)
        → Q r.0
        → Safe E (λ a h'. (r ≡ (h', ok a)) × Q h') (unwrap r.1 r.0)
    asked-Safe (h, ok a) p = (refl, p)
    asked-Safe (h, err s) p = weaken h p
