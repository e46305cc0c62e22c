-- ===== src/Hub/Post/Replay.antt =====
-- Repeating an operation: the room's bounded memory of the accepted operation ids.
use loca.Base.{
  suc, ◌≤◌, String, false, ◌||◌, Option, none, some, List, [], ◌∷◌, ◌++◌, ◌≡◌, refl, inl, inr,
  arith, string_eq, pair_eq, ◌==◌, beq_refl, length, length-append, contains, Bool-cases, ltb,
}
use loca.Base.Dict
use loca.Base.Dict.{Dict, AllEntries}
use loca.Base.Dict.Laws.{
  lookup-insert, lookup-remove, contains_key-insert, contains_key-remove, contains_key-lookup,
}
use loca.Protocol.Chat.{Message}
use loca.Hub.State.{Room, history_limit}
use loca.Hub.Post.Commit.{trim_operations, record_operation}
use loca.Hub.Post.Deliver.{remembered}

abbrev pub Key : Type 0
Key = String × String

abbrev pub Operations : Type 0
Operations = Dict Key Message

-- No key twice.
abbrev pub Once : List Key → Type 0
Once [] = Unit
Once (k ∷ ks) = (contains k ks ≡ false) × Once ks

-- The order lists exactly the remembered keys, each once, and not more than the limit.
pub record OpsOk (order : List Key) (operations : Operations) : Type 0 where
  pub once : Once order
  pub same : (k : Key) → contains k order ≡ Dict.contains_key k operations
  pub bounded : length order ≤ history_limit

trim_short :
    (order : List Key) (operations : Operations)
    → length order ≤ history_limit
    → trim_operations order operations ≡ (order, operations)
unfolding trim_operations
trim_short [] operations h = refl
trim_short (k ∷ order) operations h = ground arith

contains-append :
    (k j : Key) (xs : List Key) → contains k (xs ++ j ∷ []) ≡ (contains k xs || j == k)
unfolding contains
contains-append k j [] = ground arith
contains-append k j (x ∷ xs) = ground (arith, contains-append k j xs)

Once-append : (j : Key) (xs : List Key) → contains j xs ≡ false → Once xs → Once (xs ++ j ∷ [])
unfolding contains
Once-append j [] h o = (refl, tt)
Once-append j (x ∷ xs) h o = ground (
  arith,
  contains-append x j xs,
  Once-append j xs,
  pair_eq.equals_iff x j,
  pair_eq.equals_iff j x,
)

-- The memory with one operation more, before it is trimmed.
pushed :
    (j : Key) (m : Message) (order : List Key) (operations : Operations) (k : Key)
    → contains k order ≡ Dict.contains_key k operations
    → contains k (order ++ j ∷ []) ≡ Dict.contains_key k (Dict.insert j m operations)
pushed j m order operations k e =
    ground (arith, contains-append k j order, contains_key-insert j k m operations, e)

popped :
    (j : Key) (order : List Key) (operations : Operations) (k : Key)
    → contains j order ≡ false
    → contains k (j ∷ order) ≡ Dict.contains_key k operations
    → contains k order ≡ Dict.contains_key k (Dict.remove j operations)
unfolding contains
popped j order operations k fresh e =
    ground (arith, contains_key-remove j k operations, pair_eq.equals_iff j k, e)

-- Trimming a memory that is one too long at most.
trim-OpsOk :
    (order : List Key) (operations : Operations)
    → Once order
    → ((k : Key) → contains k order ≡ Dict.contains_key k operations)
    → length order ≤ suc history_limit
    → OpsOk (trim_operations order operations).0 (trim_operations order operations).1
unfolding trim_operations
trim-OpsOk [] operations o s b = record { once = o; same = s; bounded = omega arith }
trim-OpsOk (j ∷ order) operations o s b =
    elim (Bool-cases (ltb history_limit (length (j ∷ order)))) [
      | inr short ↦ rw short (record { once = o; same = s; bounded = ground arith })
      | inl long ↦
          rw (long, trim_short order (Dict.remove j operations) (omega arith))
            (record {
              once = o.1;
              same = λ k. popped j order operations k o.0 (s k);
              bounded = omega arith;
            })
    ]

pub record_operation-OpsOk :
    (op : Option String) (principal : String) (m : Message) (r : Room)
    → remembered r principal op ≡ none
    → OpsOk r.operation_order r.operations
    → (let r' = record_operation op principal m r in OpsOk r'.operation_order r'.operations)
unfolding record_operation remembered
record_operation-OpsOk none principal m r fresh ok' = ok'
record_operation-OpsOk (some id) principal m r fresh ok' =
    trim-OpsOk (r.operation_order ++ (principal, id) ∷ [])
      (Dict.insert (principal, id) m r.operations)
      (Once-append (principal, id) r.operation_order absent ok'.once)
      (λ k. pushed (principal, id) m r.operation_order r.operations k (ok'.same k))
      (omega (arith, length-append r.operation_order ((principal, id) ∷ []), ok'.bounded))
  where
    absent : contains (principal, id) r.operation_order ≡ false
    absent =
        ground (arith, ok'.same (principal, id), contains_key-lookup (principal, id) r.operations)

-- A trimmed memory still has its newest operation.
lookup-trim :
    (order : List Key) (operations : Operations) (key : Key) (m : Message)
    → contains key order ≡ false
    → length order ≤ history_limit
    → Dict.lookup key (trim_operations (order ++ key ∷ []) (Dict.insert key m operations)).1
      ≡ some m
unfolding trim_operations contains
lookup-trim [] operations key m absent b = rw (lookup-insert key key m operations, beq_refl key)
lookup-trim (j ∷ order) operations key m absent b =
    elim (Bool-cases (ltb history_limit (length (j ∷ order ++ key ∷ [])))) [
      | inr short ↦ rw (short, lookup-insert key key m operations, beq_refl key)
      | inl long ↦
          rw
            (
              long,
              trim_short (order ++ key ∷ []) (Dict.remove j (Dict.insert key m operations))
                  (omega (arith, length-append order (key ∷ []))),
            )
            (ground (
              arith,
              lookup-remove j key (Dict.insert key m operations),
              lookup-insert key key m operations,
              beq_refl key,
            ))
    ]

pub remembered-record_operation :
    (id principal : String) (m : Message) (r : Room)
    → remembered r principal (some id) ≡ none
    → OpsOk r.operation_order r.operations
    → remembered (record_operation (some id) principal m r) principal (some id) ≡ some m
unfolding record_operation remembered
remembered-record_operation id principal m r fresh ok' =
    lookup-trim r.operation_order r.operations (principal, id) m
      (ground (arith, ok'.same (principal, id), contains_key-lookup (principal, id) r.operations))
      ok'.bounded
