-- ===== src/Hub/Attention/Lifecycle/Once.antt =====
-- Claims and resolutions of an attention that succeed (crates/server/src/hub/attention/lifecycle.rs).
use loca.Base.{
  ◌≡◌, ◌≢◌, refl, ap, subst, ◌∙◌, inl, inr, ℕ, String, Bool, false, Option, some, ◌==◌, string_eq,
  option_eq, option_beq_iff, arith, Answer, ok, Option-cases,
}
use loca.Base.Dict
use loca.Base.Dict.Laws.{lookup-insert}
use loca.Protocol.Attention.{Attention, AttentionStatus, attention_status_eq}
use loca.Hub.State.{Hub, Room, put_room, send}
use loca.Hub.Attention.Lifecycle.{
  claim_attention, put_claim, resolve_attention, close_attention, put_resolution, replace_attention,
}
use loca.Hub.Attention.Lifecycle.Later.{Later}
use loca.Hub.Attention.Lifecycle.Moves.{Moves, Moves-RoomsLater}

put_claim_status :
    (actor : String) (now : ℕ) (a : Attention)
    → (put_claim actor now a).status ≡ AttentionStatus.claimed
unfolding put_claim
put_claim_status actor now a = refl

put_resolution_status :
    (now : ℕ) (a : Attention) → (put_resolution now a).status ≡ AttentionStatus.resolved
unfolding put_resolution
put_resolution_status now a = refl

-- What a claim that succeeds has found, and what it leaves.
pub record Claimed (h : Hub) (room id actor : String) (now : ℕ) (out : Attention) (h' : Hub)
    : Type 0 where
  pub r : Room
  pub a : Attention
  pub there : Dict.lookup room h.rooms ≡ some r
  pub filed : Dict.lookup id r.attentions ≡ some a
  pub own : a.owner ≡ some actor
  pub fresh : a.status ≡ AttentionStatus.opened
  pub is : out ≡ put_claim actor now a
  pub left : h' ≡ put_room h room (replace_attention id out r)

claim_attention-Claimed :
    (h h' : Hub) (room id actor : String) (now : ℕ) (stored : Answer Bool) (out : Attention)
    → claim_attention h room id actor now stored ≡ (h', ok out)
    → Claimed h room id actor now out h'
unfolding claim_attention
claim_attention-Claimed h h' room id actor now stored out e =
    elim (Option-cases (Dict.lookup room h.rooms)) [
      | inl none_there ↦ ground arith
      | inr (r, there) ↦ elim (Option-cases (Dict.lookup id r.attentions)) [
        | inl none_filed ↦ ground arith
        | inr (a, filed) ↦ record {
          r = r;
          a = a;
          there = there;
          filed = filed;
          own = ground (arith, there, filed, option_beq_iff a.owner (some actor));
          fresh = ground (arith, there, filed);
          is = ground (arith, there, filed);
          left = ground (arith, there, filed);
        }
      ]
    ]

-- The attention that is put in a room is found there.
replaced :
    (h : Hub) (room id : String) (r : Room) (a : Attention)
    → (Dict.lookup room (put_room h room (replace_attention id a r)).rooms
        ≡ some (replace_attention id a r))
      × (Dict.lookup id (replace_attention id a r).attentions ≡ some a)
unfolding put_room replace_attention send
replaced h room id r a = (
  ground (
    arith,
    lookup-insert room room (replace_attention id a r) h.rooms,
    string_eq.equals_iff room room,
  ),
  ground (arith, lookup-insert id id a r.attentions, string_eq.equals_iff id id),
)

-- Where an attention stands at some state, it stands at a later one after any run.
stands :
    (h h' : Hub) (room id : String) (r : Room) (a : Attention)
    → Dict.lookup room h.rooms ≡ some r
    → Dict.lookup id r.attentions ≡ some a
    → Moves h h'
    → (r' : Room) (b : Attention) → Dict.lookup room h'.rooms ≡ some r'
    → Dict.lookup id r'.attentions ≡ some b
    → Later a b
stands h h' room id r a there filed moves r' b there' filed' =
    let one = Moves-RoomsLater h h' moves room r there in
    let two = one.2 id a filed in
    let same : one.0 ≡ r' = ground (arith, one.1) in
    let same_too : two.0 ≡ b = ground (arith, two.1) in
    subst (λ (x : Attention). Later a x) same_too two.2

-- After an attention was put in a room, any state of it is a later one.
after_put :
    (h h₁ h₂ : Hub) (room id : String) (r r' : Room) (a b : Attention)
    → h₁ ≡ put_room h room (replace_attention id a r)
    → Moves h₁ h₂
    → Dict.lookup room h₂.rooms ≡ some r'
    → Dict.lookup id r'.attentions ≡ some b
    → Later a b
after_put h h₁ h₂ room id r r' a b put moves there filed =
    let set = replaced h room id r a in
    let there₁ : Dict.lookup room h₁.rooms ≡ some (replace_attention id a r) =
      ap (λ (x : Hub). Dict.lookup room x.rooms) put ∙ set.0 in
    stands h₁ h₂ room id (replace_attention id a r) a there₁ set.1 moves r' b there filed

no_claim :
    (a b : Attention)
    → a.status ≡ AttentionStatus.claimed
    → Later a b
    → b.status ≢ AttentionStatus.opened
no_claim a b claimed later fresh = ground (arith, later.status)

no_resolution :
    (a b : Attention)
    → a.status ≡ AttentionStatus.resolved
    → Later a b
    → b.status ≡ AttentionStatus.resolved
no_resolution a b resolved later = ground (arith, later.status)

-- Of all the claims of an attention one succeeds at most: after one that did, and after any run of operations
-- on attentions (new ones under ids that their room has not), no claim succeeds, whoever asks.
pub claim_attention_once :
    (h h₁ h₂ h₃ : Hub) (room id actor other : String) (now at : ℕ) (stored stored' : Answer Bool)
    (out again : Attention)
    → claim_attention h room id actor now stored ≡ (h₁, ok out)
    → Moves h₁ h₂
    → claim_attention h₂ room id other at stored' ≢ (h₃, ok again)
claim_attention_once h h₁ h₂ h₃ room id actor other now at stored stored' out again e moves e' =
    let c = claim_attention-Claimed h h₁ room id actor now stored out e in
    let d = claim_attention-Claimed h₂ h₃ room id other at stored' again e' in
    let later = after_put h h₁ h₂ room id c.r d.r out d.a c.left moves d.there d.filed in
    no_claim out d.a (rw (c.is) (put_claim_status actor now c.a)) later d.fresh

-- What a resolution that succeeds has found, and what it leaves.
pub record Resolved (h : Hub) (room id : String) (now : ℕ) (out : Attention) (h' : Hub)
    : Type 0 where
  pub r : Room
  pub a : Attention
  pub there : Dict.lookup room h.rooms ≡ some r
  pub filed : Dict.lookup id r.attentions ≡ some a
  pub live : (a.status == AttentionStatus.resolved) ≡ false
  pub is : out ≡ put_resolution now a
  pub left : h' ≡ put_room h room (replace_attention id out r)

close_attention-Resolved :
    (h h' : Hub) (room id : String) (r : Room) (a : Attention) (now : ℕ) (stored : Answer Bool)
    (out : Attention)
    → Dict.lookup room h.rooms ≡ some r
    → Dict.lookup id r.attentions ≡ some a
    → close_attention h room id r a now stored ≡ (h', ok out)
    → Resolved h room id now out h'
unfolding close_attention
close_attention-Resolved h h' room id r a now stored out there filed e = record {
  r = r;
  a = a;
  there = there;
  filed = filed;
  live = ground (arith, e);
  is = ground (arith, e);
  left = ground (arith, e);
}

resolve_attention-close :
    (h h' : Hub) (room id actor : String) (principal : Option String) (is_operator : Bool) (now : ℕ)
    (scope : Answer (Option (Option String))) (stored : Answer Bool) (out : Attention) (r : Room)
    (a : Attention)
    → Dict.lookup room h.rooms ≡ some r
    → Dict.lookup id r.attentions ≡ some a
    → resolve_attention h room id actor principal is_operator now scope stored ≡ (h', ok out)
    → close_attention h room id r a now stored ≡ (h', ok out)
unfolding resolve_attention
resolve_attention-close h h' room id actor principal is_operator now scope stored out r a there
      filed e =
    ground (arith, there, filed, e)

resolve_attention-Resolved :
    (h h' : Hub) (room id actor : String) (principal : Option String) (is_operator : Bool) (now : ℕ)
    (scope : Answer (Option (Option String))) (stored : Answer Bool) (out : Attention)
    → resolve_attention h room id actor principal is_operator now scope stored ≡ (h', ok out)
    → Resolved h room id now out h'
unfolding resolve_attention
resolve_attention-Resolved h h' room id actor principal is_operator now scope stored out e =
    elim (Option-cases (Dict.lookup room h.rooms)) [
      | inl none_there ↦ ground arith
      | inr (r, there) ↦ elim (Option-cases (Dict.lookup id r.attentions)) [
        | inl none_filed ↦ ground arith
        | inr (a, filed) ↦ close_attention-Resolved h h' room id r a now stored out there filed (
            resolve_attention-close h h' room id actor principal is_operator now scope stored out r
              a there filed e)
      ]
    ]

-- Of all the resolutions of an attention one succeeds at most: after one that did, and after any run of
-- operations on attentions (new ones under ids that their room has not), none succeeds, whoever asks, and as an
-- operator too.
pub resolve_attention_once :
    (h h₁ h₂ h₃ : Hub) (room id actor other : String) (principal principal' : Option String)
    (is_operator is_operator' : Bool) (now at : ℕ) (scope scope' : Answer (Option (Option String)))
    (stored stored' : Answer Bool) (out again : Attention)
    → resolve_attention h room id actor principal is_operator now scope stored ≡ (h₁, ok out)
    → Moves h₁ h₂
    → resolve_attention h₂ room id other principal' is_operator' at scope' stored' ≢ (h₃, ok again)
resolve_attention_once h h₁ h₂ h₃ room id actor other principal principal' is_operator is_operator'
      now at scope scope' stored stored' out again e moves e' =
    let c =
      resolve_attention-Resolved h h₁ room id actor principal is_operator now scope stored out e in
    let d =
      resolve_attention-Resolved h₂ h₃ room id other principal' is_operator' at scope' stored' again
        e' in
    let later = after_put h h₁ h₂ room id c.r d.r out d.a c.left moves d.there d.filed in
    let over = no_resolution out d.a (rw (c.is) (put_resolution_status now c.a)) later in
    ground (arith, d.live)
