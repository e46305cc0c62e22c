-- ===== src/Hub/Post/Refusal.antt =====
-- What a refused post leaves behind.
use loca.Base.{ℕ, String, Bool, [], ◌≡◌, ◌≢◌, refl, sym, ◌∙◌, arith, string_eq, ok, err, ap}
use loca.Base.Dict
use loca.Base.Dict.Laws.{lookup-insert}
use loca.Hub.State.{Room, Hub, room_of, put_room}
use loca.Hub.Seats.Readers.{room_of-put_room}
use loca.Hub.Post.Gate.{rate_gate}
use loca.Hub.Post.Deliver.{Call, Outcome, post}
use loca.Hub.Post.Rooms.{wake_of_rooms}
use loca.Hub.Post.Cases.{rated_room, posted, post_cases}

-- A room but for the times that the rate limit keeps.
unfoldable pub timeless : Room → Room
timeless r = record r { post_times = [] }

rated_timeless :
    (now : ℕ) (r : Room) (sender : String) (is_admin : Bool)
    → timeless (rate_gate now r sender is_admin).0 ≡ timeless r
unfolding timeless rate_gate
rated_timeless now r sender is_admin = ground arith

other_room :
    (h : Hub) (room : String) (r : Room) (other : String)
    → room ≢ other
    → Dict.lookup other (put_room h room r).rooms ≡ Dict.lookup other h.rooms
unfolding put_room
other_room h room r other ne =
    ground (arith, lookup-insert room other r h.rooms, string_eq.equals_iff room other)

abbrev pub Untouched : Call → Hub → Hub × Outcome → Type 0
Untouched c h (h', ok m) = Unit
Untouched c h (h', err why) =
    (timeless (room_of h' c.room) ≡ timeless (room_of h c.room))
    × ((other : String) → c.room ≢ other → Dict.lookup other h'.rooms ≡ Dict.lookup other h.rooms)

-- A refused post changes no room but for the rate limit's times of its own room: no message, no
-- frame, no turn, no seat. (A room that was not there counts as a new one.)
pub post_refused : (c : Call) (h : Hub) → Untouched c h (post c h)
post_refused c h =
    post_cases (Untouched c h) c h (λ why. (refl, λ other ne. refl)) (λ m e. tt) (λ m e. tt)
      (λ why. (ap timeless (room_of-put_room h c.room _), other_room h c.room _))
      (λ why. (away h refl, other_room h c.room _))
      (λ attachments author why p. (
        away _ refl,
        λ other ne.
            other_room _ c.room _ other ne
            ∙ ap (Dict.lookup other)
                (wake_of_rooms c h (rated_room c h) (posted c h attachments author)),
      ))
      (λ attachments author p e. tt)
  where
    away :
        (h' : Hub) {r : Room}
        → rated_room c h ≡ r
        → timeless (room_of (put_room h' c.room r) c.room) ≡ timeless (room_of h c.room)
    away h' e =
        ap timeless (room_of-put_room h' c.room _ ∙ sym e)
        ∙ rated_timeless c.now (room_of h c.room) c.body.sender c.is_admin
