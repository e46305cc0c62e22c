-- ===== src/Hub/Work/Waits/Cycles.antt =====
-- The search for a cycle of waits ends, and what it finds is a cycle.
use loca.Base.{
  ℕ, zero, suc, ◌+◌, ◌≤◌, ◌<◌, ◌≡◌, refl, inl, inr, String, false, ◌||◌, some, List, [], ◌∷◌, ◌++◌,
  ◌==◌, string_eq, if◌then◌else◌, contains, length, beq_refl, subst, ap, arith, Bool-cases,
  Option-cases,
}
use loca.Base.Dict
use loca.Base.Dict.{Dict}
use loca.Protocol.Work.{WaitState}
use loca.Hub.Work.Waits.{next_waited, walk, wait_cycle_after}

-- The waits of names that a path has not visited.
unvisited : List String → Dict String WaitState → ℕ
unvisited path [] = 0
unvisited path ((k, w) ∷ m) =
    let rest = unvisited path m in if contains k path then rest else suc rest

contains-append :
    (a c : String) (path : List String) → contains a (path ++ c ∷ []) ≡ (contains a path || c == a)
unfolding contains
contains-append a c [] = ground arith
contains-append a c (x ∷ path) = ground (arith, contains-append a c path)

unvisited-append-le :
    (c : String) (path : List String) (m : Dict String WaitState)
    → unvisited (path ++ c ∷ []) m ≤ unvisited path m
unfolding unvisited
unvisited-append-le c path [] = omega arith
unvisited-append-le c path ((k, w) ∷ m) =
    ground (arith, contains-append k c path, unvisited-append-le c path m)

-- Visiting a name that waits and that the path does not have leaves one fewer.
unvisited-append-lt :
    (c : String) (w : WaitState) (path : List String) (m : Dict String WaitState)
    → contains c path ≡ false
    → Dict.lookup c m ≡ some w
    → unvisited (path ++ c ∷ []) m < unvisited path m
unfolding unvisited Dict.lookup
unvisited-append-lt c w path [] fresh e = ground arith
unvisited-append-lt c w path ((k, v) ∷ m) fresh e = ground (
  arith,
  contains-append k c path,
  unvisited-append-le c path m,
  unvisited-append-lt c w path m,
  string_eq.equals_iff k c,
  string_eq.equals_iff c k,
)

unvisited-le : (path : List String) (m : Dict String WaitState) → unvisited path m ≤ length m
unfolding unvisited
unvisited-le path [] = omega arith
unvisited-le path ((k, w) ∷ m) = ground (arith, unvisited-le path m)

walk_total :
    (fuel : ℕ) (m : Dict String WaitState) (p : WaitState) (path : List String) (c : String)
    → (c == p.waiter) ≡ false
    → unvisited path m < fuel
    → (found : List String) × (walk fuel m p path c ≡ some found)
unfolding walk next_waited
walk_total zero m p path c other enough = ground arith
walk_total (suc fuel) m p path c other enough = elim (Bool-cases (contains c path)) [
  | inl seen ↦ ([], rw (seen, walk) refl)
  | inr fresh ↦ elim (Option-cases (Dict.lookup c m)) [
    | inl none_waits ↦ ([], rw (fresh, other, none_waits, walk) refl)
    | inr (w, e) ↦ elim (Bool-cases (w.waiting_for == p.waiter)) [
      | inl back ↦ (path ++ c ∷ [], rw (fresh, other, e, back, walk) refl)
      | inr on ↦
          let rest =
            walk_total fuel m p (path ++ c ∷ []) w.waiting_for on
              (omega (arith, unvisited-append-lt c w path m fresh e, enough)) in
          (rest.0, rw (fresh, other, e, on, walk) rest.1)
    ]
  ]
]

first_step :
    (fuel : ℕ) (m : Dict String WaitState) (p : WaitState)
    → walk (suc fuel) m p [] p.waiter ≡ (
        if p.waiting_for == p.waiter
        then some (p.waiter ∷ [])
        else walk fuel m p (p.waiter ∷ []) p.waiting_for)
unfolding walk next_waited contains
first_step fuel m p = ground (arith, beq_refl p.waiter)

-- The search for a cycle ends with an answer, whatever the waits of the room are.
pub wait_cycle_after_total :
    (waits : Dict String WaitState) (proposed : WaitState)
    → (found : List String) × (wait_cycle_after waits proposed ≡ some found)
unfolding wait_cycle_after
wait_cycle_after_total waits proposed =
    elim (Bool-cases (proposed.waiting_for == proposed.waiter)) [
      | inl itself ↦
          (proposed.waiter ∷ [], ground (arith, first_step (1 + length waits) waits proposed))
      | inr on ↦
          let rest =
            walk_total (1 + length waits) waits proposed (proposed.waiter ∷ []) proposed.waiting_for
              on (omega (arith, unvisited-le (proposed.waiter ∷ []) waits)) in
          (rest.0, ground (arith, first_step (1 + length waits) waits proposed, rest.1))
    ]

-- Each name of a path waits for the next, and the last for `last`.
pub Linked : Dict String WaitState → WaitState → List String → String → Type 0
Linked m p [] last = Unit
Linked m p (x ∷ []) last = next_waited m p x ≡ some last
Linked m p (x ∷ y ∷ ys) last = (next_waited m p x ≡ some y) × Linked m p (y ∷ ys) last

-- No name stands twice.
pub Fresh : List String → Type 0
Fresh [] = Unit
Fresh (x ∷ xs) = (contains x xs ≡ false) × Fresh xs

-- A path that starts with the proposed waiter and leads back to it, with no name twice.
pub record Cycle (m : Dict String WaitState) (p : WaitState) (path : List String) : Type 0 where
  pub starts : (rest : List String) × (path ≡ p.waiter ∷ rest)
  pub linked : Linked m p path p.waiter
  pub fresh : Fresh path

Linked-append :
    (m : Dict String WaitState) (p : WaitState) (path : List String) (c next : String)
    → Linked m p path c
    → next_waited m p c ≡ some next
    → Linked m p (path ++ c ∷ []) next
unfolding Linked
Linked-append m p [] c next l e = e
Linked-append m p (x ∷ []) c next l e = (l, e)
Linked-append m p (x ∷ y ∷ ys) c next l e = (l.0, Linked-append m p (y ∷ ys) c next l.1 e)

Fresh-append :
    (path : List String) (c : String)
    → Fresh path
    → contains c path ≡ false
    → Fresh (path ++ c ∷ [])
unfolding Fresh contains
Fresh-append [] c f n = (refl, tt)
Fresh-append (x ∷ path) c f n = (
  ground (arith, contains-append x c path, f.0, string_eq.equals_iff x c, string_eq.equals_iff c x),
  Fresh-append path c f.1 (ground arith),
)

walk-Cycle :
    (fuel : ℕ) (m : Dict String WaitState) (p : WaitState) (path : List String) (c : String)
    (x : String) (found : List String)
    → (rest : List String) × (path ++ c ∷ [] ≡ p.waiter ∷ rest)
    → Linked m p path c
    → Fresh path
    → walk fuel m p path c ≡ some (x ∷ found)
    → Cycle m p (x ∷ found)
unfolding walk
walk-Cycle zero m p path c x found s l f e = cc
walk-Cycle (suc fuel) m p path c x found s l f e = elim (Bool-cases (contains c path)) [
  | inl seen ↦ ground arith
  | inr fresh ↦ elim (Option-cases (next_waited m p c)) [
    | inl stuck ↦ ground arith
    | inr (next, step) ↦ elim (Bool-cases (next == p.waiter)) [
      | inl back ↦
          let is : path ++ c ∷ [] ≡ x ∷ found = ground arith in
          let home : next ≡ p.waiter = (string_eq.equals_iff next p.waiter).0 back in
          subst (Cycle m p) is (record {
            starts = s;
            linked =
                subst (λ n. Linked m p (path ++ c ∷ []) n) home
                  (Linked-append m p path c next l step);
            fresh = Fresh-append path c f fresh;
          })
      | inr on ↦
          walk-Cycle fuel m p (path ++ c ∷ []) next x found
            (s.0 ++ next ∷ [], ap (λ q. q ++ next ∷ []) s.1) (Linked-append m p path c next l step)
            (Fresh-append path c f fresh) (ground arith)
    ]
  ]
]

-- A path that the search finds is a cycle of waits: it starts with the proposed waiter, each name
-- waits for the next, the last waits for the proposed waiter, and no name stands twice.
pub wait_cycle_after-Cycle :
    (waits : Dict String WaitState) (proposed : WaitState) (x : String) (found : List String)
    → wait_cycle_after waits proposed ≡ some (x ∷ found)
    → Cycle waits proposed (x ∷ found)
unfolding wait_cycle_after Linked Fresh
wait_cycle_after-Cycle waits proposed x found e =
    walk-Cycle (2 + length waits) waits proposed [] proposed.waiter x found ([], refl) tt tt e
