-- ===== src/Hub/RateLimit/Knocks.antt =====
-- Runs of posts against the rate limit of a room (crates/server/src/hub.rs).
use loca.Base.{
  ℕ, ◌-◌, ◌*◌, String, Bool, not, ◌&&◌, ◌==◌, string_eq, none, some, beq_refl, ◌∙◌, ap, sym, Option,
  true, false, ◌≤◌, ◌<◌, ◌≡◌, refl, true, false, List, [], ◌∷◌, ◌++◌, leb, length, arith,
  if◌then◌else◌,
}
use loca.Base.Dict
use loca.Base.Dict.Laws.{lookup-insert}
use loca.Hub.State.{Room}
use loca.Hub.RateLimit.{as_u32, expire, rate_check, retry_ms, div_ceil_1000}
use loca.Hub.Post.Gate.{records_rate, times_of, rate_gate}
use loca.Hub.Post.Commit.{record_time}

-- A post to a room, as its rate limit sees it.
pub record Knock : Type 0 where
  pub sender : String
  pub is_admin : Bool
  pub now : ℕ

-- What the posts to a room come to: the room, and when the limit let `sender` pass without being an admin.
pub record Trace : Type 0 where
  pub room : Room
  pub accepted : List ℕ

-- The stages of `post` on the limit: the gate, and the record of a post that it lets pass.
abbrev knocked : Room → Knock → Room × Option ℕ → Room × Bool
knocked r k (r', some secs) = (r', false)
knocked r k (r', none) = (record_time (records_rate r k.is_admin) k.now k.sender r', true)

unfoldable pub knock : Room → Knock → Room × Bool
knock r k = knocked r k (rate_gate k.now r k.sender k.is_admin)

unfoldable pub step : String → Trace → Knock → Trace
unfolding knock
step sender s k =
    let (r', passed) = knock s.room k in
    record {
      room = r';
      accepted =
          if passed && (k.sender == sender && not k.is_admin)
          then s.accepted ++ k.now ∷ []
          else s.accepted;
    }

unfoldable pub run : String → Trace → List Knock → Trace
unfolding step
run sender s [] = s
run sender s (k ∷ ks) = run sender (step sender s k) ks

-- The clock does not run backwards.
abbrev pub Ascending : ℕ → List Knock → Type 0
Ascending from [] = Unit
Ascending from (k ∷ ks) = (from ≤ k.now) × Ascending k.now ks

-- The time of the last post.
abbrev pub last_of : ℕ → List Knock → ℕ
last_of t [] = t
last_of t (k ∷ ks) = last_of k.now ks

times_of-insert :
    (r : Room) (sender other : String) (times : List ℕ)
    → times_of (record r { post_times = Dict.insert other times r.post_times }) sender
      ≡ (if other == sender then times else times_of r sender)
unfolding times_of
times_of-insert r sender other times = ground (arith, lookup-insert other sender times r.post_times)

abbrev pub full : Room → Knock → Bool
full r k =
    leb r.settings.rate_limit
      (as_u32 (length (expire (k.now - r.settings.rate_window_secs * 1000) (times_of r k.sender))))

gate_free :
    (now : ℕ) (r : Room) (sender : String) (is_admin : Bool)
    → records_rate r is_admin ≡ false
    → rate_gate now r sender is_admin ≡ (r, none)
unfolding rate_gate
gate_free now r sender is_admin e = rw e refl

gate_rated :
    (now : ℕ) (r : Room) (sender : String) (is_admin : Bool)
    → records_rate r is_admin ≡ true
    → rate_gate now r sender is_admin ≡ (
        let (left, refused) =
          rate_check r.settings.rate_limit
            (r.settings.rate_window_secs * 1000)
            now
            (times_of r sender) in
        (record r { post_times = Dict.insert sender left r.post_times }, refused))
unfolding rate_gate
gate_rated now r sender is_admin e = rw e refl

check_full :
    (limit w now : ℕ) (times : List ℕ)
    → leb limit (as_u32 (length (expire (now - w) times))) ≡ true
    → (secs : ℕ) × (rate_check limit w now times ≡ (expire (now - w) times, some secs))
unfolding rate_check
check_full limit w now times e =
    let secs = div_ceil_1000 (retry_ms w now (expire (now - w) times)) in (secs, rw e refl)

check_free :
    (limit w now : ℕ) (times : List ℕ)
    → leb limit (as_u32 (length (expire (now - w) times))) ≡ false
    → rate_check limit w now times ≡ (expire (now - w) times, none)
unfolding rate_check
check_free limit w now times e = rw e refl

-- The room with these times of a sender.
abbrev pub timed : Room → String → List ℕ → Room
timed r sender times = record r { post_times = Dict.insert sender times r.post_times }

abbrev pub left_of : Room → Knock → List ℕ
left_of r k = expire (k.now - r.settings.rate_window_secs * 1000) (times_of r k.sender)

-- What the gate makes of the check's answer.
abbrev gated : Room → String → List ℕ × Option ℕ → Room × Option ℕ
gated r sender (left, refused) = (timed r sender left, refused)

-- An admin, or a room without a limit: nothing is looked at and nothing recorded.
pub knock_free : (r : Room) (k : Knock) → records_rate r k.is_admin ≡ false → knock r k ≡ (r, true)
unfolding knock record_time
knock_free r k e =
    ap (knocked r k) (gate_free k.now r k.sender k.is_admin e)
    ∙ ap (λ (b : Bool). (record_time b k.now k.sender r, true)) e

pub knock_refused :
    (r : Room) (k : Knock)
    → records_rate r k.is_admin ≡ true
    → full r k ≡ true
    → knock r k ≡ (timed r k.sender (left_of r k), false)
unfolding knock
knock_refused r k e f =
    let (secs, is) =
      check_full r.settings.rate_limit (r.settings.rate_window_secs * 1000) k.now
        (times_of r k.sender) f in
    ap (knocked r k) (gate_rated k.now r k.sender k.is_admin e ∙ ap (gated r k.sender) is)

pub knock_passed :
    (r : Room) (k : Knock)
    → records_rate r k.is_admin ≡ true
    → full r k ≡ false
    → knock r k ≡ (
      timed
          (timed r k.sender (left_of r k))
          k.sender
          (times_of (timed r k.sender (left_of r k)) k.sender ++ k.now ∷ []),
      true,
    )
unfolding knock record_time
knock_passed r k e f =
    ap (knocked r k) (
      gate_rated k.now r k.sender k.is_admin e
      ∙ ap (gated r k.sender) (
          check_free r.settings.rate_limit (r.settings.rate_window_secs * 1000) k.now
            (times_of r k.sender) f))
    ∙ ap (λ (b : Bool). (record_time b k.now k.sender (timed r k.sender (left_of r k)), true)) e

pub step_is :
    (sender : String) (s : Trace) (k : Knock) (r : Room) (passed : Bool)
    → knock s.room k ≡ (r, passed)
    → step sender s k ≡ record {
      room = r;
      accepted =
          if passed && (k.sender == sender && not k.is_admin)
          then s.accepted ++ k.now ∷ []
          else s.accepted;
    }
unfolding step
step_is sender s k r passed e =
    ap
      (λ (x : Room × Bool). record {
        room = x.0;
        accepted =
            if x.1 && (k.sender == sender && not k.is_admin)
            then s.accepted ++ k.now ∷ []
            else s.accepted;
      })
      e

times_own :
    (r : Room) (sender : String) (times : List ℕ) → times_of (timed r sender times) sender ≡ times
times_own r sender times = ground (arith, times_of-insert r sender sender times, beq_refl sender)

pub times_other :
    (r : Room) (sender other : String) (times : List ℕ)
    → (other == sender) ≡ false
    → times_of (timed r other times) sender ≡ times_of r sender
times_other r sender other times apart = ground (arith, times_of-insert r sender other times)

pub not_admin : (r : Room) (is_admin : Bool) → records_rate r is_admin ≡ true → is_admin ≡ false
unfolding records_rate
not_admin r is_admin e = ground arith

pub unlimited :
    (r : Room) (is_admin : Bool)
    → 0 < r.settings.rate_limit
    → records_rate r is_admin ≡ false
    → is_admin ≡ true
unfolding records_rate
unlimited r is_admin some_limit e = ground arith

-- The room once it let a post pass.
abbrev pub marked : Room → Knock → Room
marked r k =
    let r' = timed r k.sender (left_of r k) in
    timed r' k.sender (times_of r' k.sender ++ k.now ∷ [])

pub times_left :
    (r : Room) (k : Knock) (sender : String)
    → k.sender ≡ sender
    → times_of (timed r k.sender (left_of r k)) sender
      ≡ expire (k.now - r.settings.rate_window_secs * 1000) (times_of r sender)
times_left r k sender is =
    ap (times_of (timed r k.sender (left_of r k))) (sym is)
    ∙ times_own r k.sender (left_of r k)
    ∙ ap (λ x. expire (k.now - r.settings.rate_window_secs * 1000) (times_of r x)) is

pub times_marked :
    (r : Room) (k : Knock) (sender : String)
    → k.sender ≡ sender
    → times_of (marked r k) sender
      ≡ expire (k.now - r.settings.rate_window_secs * 1000) (times_of r sender) ++ k.now ∷ []
times_marked r k sender is =
    ap (times_of (marked r k)) (sym is)
    ∙ times_own (timed r k.sender (left_of r k)) k.sender
        (times_of (timed r k.sender (left_of r k)) k.sender ++ k.now ∷ [])
    ∙ ap (λ (times : List ℕ). times ++ k.now ∷ []) (times_left r k k.sender refl)
    ∙ ap (λ x. expire (k.now - r.settings.rate_window_secs * 1000) (times_of r x) ++ k.now ∷ []) is

pub times_marked_other :
    (r : Room) (k : Knock) (sender : String)
    → (k.sender == sender) ≡ false
    → times_of (marked r k) sender ≡ times_of r sender
times_marked_other r k sender apart =
    times_other (timed r k.sender (left_of r k)) sender k.sender
      (times_of (timed r k.sender (left_of r k)) k.sender ++ k.now ∷ []) apart
    ∙ times_other r sender k.sender (left_of r k) apart
