-- ===== src/Hub/Admission/Sources.antt =====
-- How the limit on requests to join treats its sources (crates/server/src/hub.rs).
use loca.Base.{
  ◌↔◌, ◌<◌, true, suc, beq_refl, if◌then◌else◌, ◌≡◌, refl, sym, ap, ◌∙◌, inl, inr, ℕ, ◌-◌, ◌≤◌,
  String, false, none, List, [], ◌∷◌, ◌++◌, ◌==◌, string_eq, arith, ltb, leb, length, Bool-cases,
}
use loca.Base.Dict
use loca.Base.Dict.{Dict, Distinct}
use loca.Base.Dict.Laws.{lookup-insert, Distinct-insert}
use loca.Hub.Admission.{join_create_max_in_window, recent, reap, times_at, join_request_rate_ok}

-- How many of the times are less than a minute before `now`.
unfoldable pub counted : ℕ → List ℕ → ℕ
counted now [] = 0
counted now (t ∷ times) =
    let rest = counted now times in if ltb (now - t) 60000 then suc rest else rest

-- Which of a source's attempts, latest first, are admitted where less than thirty may be in a minute.
unfoldable pub accepted : List ℕ → List ℕ
unfolding counted
accepted [] = []
accepted (t ∷ times) =
    let rest = accepted times in if ltb (counted t rest) 30 then t ∷ rest else rest

-- The source's attempts among those of all sources.
unfoldable pub own : String → List (String × ℕ) → List ℕ
own source [] = []
own source ((by, t) ∷ before) =
    let rest = own source before in if by == source then t ∷ rest else rest

-- What the limit remembers after the attempts, latest first.
unfoldable pub after : List (String × ℕ) → Dict String (List ℕ)
unfolding join_request_rate_ok
after [] = []
after ((by, t) ∷ before) = (join_request_rate_ok (after before) by t).0

-- Latest first, none later than `now`.
unfoldable pub Latest : ℕ → List (String × ℕ) → Type 0
Latest now [] = Unit {0}
Latest now ((by, t) ∷ before) = (t ≤ now) × Latest t before

length-recent : (now : ℕ) (times : List ℕ) → length (recent now times) ≡ counted now times
unfolding recent counted
length-recent now [] = refl
length-recent now (t ∷ times) = ground (arith, length-recent now times)

counted-recent :
    (now now' : ℕ) (times : List ℕ)
    → now ≤ now'
    → counted now' (recent now times) ≡ counted now' times
unfolding recent counted
counted-recent now now' [] le = refl
counted-recent now now' (t ∷ times) le = elim (Bool-cases (ltb (now - t) 60000)) [
  | inl kept ↦ ground (arith, counted-recent now now' times le)
  | inr gone ↦ ground (arith, counted-recent now now' times le)
]

counted_cons :
    (now at : ℕ) (times rest : List ℕ)
    → counted now times ≡ counted now rest
    → counted now (at ∷ times) ≡ counted now (at ∷ rest)
unfolding counted
counted_cons now at times rest e = ground (arith, e)

counted-append :
    (now at : ℕ) (times : List ℕ) → counted now (times ++ at ∷ []) ≡ counted now (at ∷ times)
unfolding counted
counted-append now at [] = refl
counted-append now at (t ∷ times) = ground (arith, counted-append now at times)

contains_key-reap :
    (now : ℕ) (source : String) (m : Dict String (List ℕ))
    → Dict.contains_key source m ≡ false
    → Dict.contains_key source (reap now m) ≡ false
unfolding reap Dict.contains_key
contains_key-reap now source [] e = refl
contains_key-reap now source ((at, times) ∷ m) e = ground (arith, contains_key-reap now source m)

Distinct-reap : (now : ℕ) (m : Dict String (List ℕ)) → Distinct m → Distinct (reap now m)
unfolding reap
Distinct-reap now [] d = tt
Distinct-reap now ((at, times) ∷ m) d =
    elim (recent now times)
      as (λ (kept : List ℕ). Distinct (elim kept as (λ _. Dict String (List ℕ)) [
        | [] ↦ reap now m
        | t ∷ kept ↦ (at, t ∷ kept) ∷ reap now m
      ])) [
        | [] ↦ Distinct-reap now m d.1
        | t ∷ kept ↦ (contains_key-reap now at m d.0, Distinct-reap now m d.1)
      ]

missing :
    (source : String) (m : Dict String (List ℕ))
    → Dict.contains_key source m ≡ false
    → Dict.lookup source m ≡ none
unfolding Dict.contains_key Dict.lookup
missing source [] e = refl
missing source ((at, times) ∷ m) e = ground (arith, missing source m)

times_at-reap :
    (now : ℕ) (source : String) (m : Dict String (List ℕ))
    → Distinct m
    → times_at source (reap now m) ≡ recent now (times_at source m)
unfolding reap times_at recent Dict.lookup
times_at-reap now source [] d = refl
times_at-reap now source ((at, times) ∷ m) d = elim (Bool-cases (at == source)) [
  | inl hit ↦
      let same : at ≡ source = (string_eq.equals_iff at source).0 hit in
      let none_left : Dict.lookup source (reap now m) ≡ none =
        missing source (reap now m)
          (contains_key-reap now source m (ap (λ x. Dict.contains_key x m) (sym same) ∙ d.0)) in
      ground (arith, none_left)
  | inr miss ↦ ground (arith, times_at-reap now source m d.1)
]

-- The answer depends on the source's own times only.
rate_ok_own :
    (m : Dict String (List ℕ)) (source : String) (now : ℕ)
    → Distinct m
    → (join_request_rate_ok m source now).1
      ≡ ltb (length (recent now (times_at source m))) join_create_max_in_window
unfolding join_request_rate_ok
rate_ok_own m source now d = ground (arith, times_at-reap now source m d)

rate_ok-Distinct :
    (m : Dict String (List ℕ)) (source : String) (now : ℕ)
    → Distinct m
    → Distinct (join_request_rate_ok m source now).0
unfolding join_request_rate_ok
rate_ok-Distinct m source now d =
    let times = times_at source (reap now m) in
    elim (Bool-cases (leb join_create_max_in_window (length times))) [
      | inl many ↦ rw many (Distinct-insert source times (reap now m) (Distinct-reap now m d))
      | inr few ↦
          rw few (Distinct-insert source (times ++ now ∷ []) (reap now m) (Distinct-reap now m d))
    ]

times_at-insert :
    (source other : String) (times : List ℕ) (m : Dict String (List ℕ))
    → (other == source) ≡ false
    → times_at source (Dict.insert other times m) ≡ times_at source m
unfolding times_at
times_at-insert source other times m apart = rw (lookup-insert other source times m, apart) refl

-- An attempt of another source only ages the times of this one.
rate_ok_others :
    (m : Dict String (List ℕ)) (source other : String) (now : ℕ)
    → Distinct m
    → (other == source) ≡ false
    → times_at source (join_request_rate_ok m other now).0 ≡ recent now (times_at source m)
unfolding join_request_rate_ok
rate_ok_others m source other now d apart =
    let times = times_at other (reap now m) in
    elim (Bool-cases (leb join_create_max_in_window (length times))) [
      | inl many ↦
          rw many
            (times_at-insert source other times (reap now m) apart ∙ times_at-reap now source m d)
      | inr few ↦ rw few (
          times_at-insert source other (times ++ now ∷ []) (reap now m) apart
          ∙ times_at-reap now source m d)
    ]

-- An attempt of the source itself is added where it is admitted.
rate_ok_same :
    (m : Dict String (List ℕ)) (source : String) (now : ℕ)
    → Distinct m
    → times_at source (join_request_rate_ok m source now).0 ≡ (
        if ltb (counted now (times_at source m)) 30
        then recent now (times_at source m) ++ now ∷ []
        else recent now (times_at source m))
unfolding join_request_rate_ok times_at
rate_ok_same m source now d =
    let kept = times_at-reap now source m d in
    let count = length-recent now (times_at source m) in
    elim (Bool-cases (leb 30 (length (times_at source (reap now m))))) [
      | inl many ↦ ground (
        arith,
        many,
        kept,
        count,
        beq_refl source,
        lookup-insert source source (times_at source (reap now m)) (reap now m),
      )
      | inr few ↦ ground (
        arith,
        few,
        kept,
        count,
        beq_refl source,
        lookup-insert source source (times_at source (reap now m) ++ now ∷ []) (reap now m),
      )
    ]

after-Distinct : (before : List (String × ℕ)) → Distinct (after before)
unfolding after
after-Distinct [] = tt
after-Distinct ((by, t) ∷ before) = rate_ok-Distinct (after before) by t (after-Distinct before)

counted_step :
    (t now : ℕ) (times rest : List ℕ)
    → t ≤ now
    → counted t times ≡ counted t rest
    → counted now times ≡ counted now rest
    → counted now (if ltb (counted t times) 30 then recent t times ++ t ∷ [] else recent t times)
      ≡ counted now (if ltb (counted t rest) 30 then t ∷ rest else rest)
counted_step t now times rest le e e2 =
    let aged = counted-recent t now times le in
    elim (Bool-cases (ltb (counted t rest) 30)) [
      | inl few ↦
          rw (e, few) (counted-append now t (recent t times) ∙ counted_cons now t _ _ (aged ∙ e2))
      | inr many ↦ rw (e, many) (aged ∙ e2)
    ]

later : (before : List (String × ℕ)) (t now : ℕ) → t ≤ now → Latest t before → Latest now before
unfolding Latest
later [] t now le l = tt
later ((by, at) ∷ before) t now le l = (omega arith, l.1)

-- What is remembered of a source counts as its admitted attempts do.
counted-after :
    (source : String) (now : ℕ) (before : List (String × ℕ))
    → Latest now before
    → counted now (times_at source (after before)) ≡ counted now (accepted (own source before))
unfolding after own times_at Dict.lookup accepted Latest
counted-after source now [] l = refl
counted-after source now ((by, t) ∷ before) l =
    let d = after-Distinct before in
    elim (Bool-cases (by == source)) [
      | inr apart ↦
          ap (counted now) (rate_ok_others (after before) source by t d apart)
          ∙ counted-recent t now (times_at source (after before)) l.0
          ∙ counted-after source now before (later before t now l.0 l.1)
          ∙ rw apart refl
      | inl same ↦
          let eq : by ≡ source = (string_eq.equals_iff by source).0 same in
          let times = times_at source (after before) in
          ap
            (λ (x : String).
              counted now (times_at source (join_request_rate_ok (after before) x t).0))
            eq
          ∙ ap (counted now) (rate_ok_same (after before) source t d)
          ∙ counted_step t now times (accepted (own source before)) l.0
              (counted-after source t before l.1)
              (counted-after source now before (later before t now l.0 l.1))
          ∙ rw same refl
    ]

-- An attempt to ask to join is admitted exactly where less than thirty of the source's own admitted attempts, of
-- all those before, are less than a minute old. So a source is throttled, and no number of attempts of others
-- matters. The attempts are in the order of their times, from a server that remembers none. This is the limit per
-- source only: the limit on the requests that wait for a decision is apart from it.
pub join_request_rate_ok-accepted :
    (before : List (String × ℕ)) (source : String) (now : ℕ)
    → Latest now before
    → ((join_request_rate_ok (after before) source now).1 ≡ true)
      ↔ (counted now (accepted (own source before)) < 30)
join_request_rate_ok-accepted before source now l =
    let answer = rate_ok_own (after before) source now (after-Distinct before) in
    let count = length-recent now (times_at source (after before)) in
    let same = counted-after source now before l in ground (arith, answer, count, same)
