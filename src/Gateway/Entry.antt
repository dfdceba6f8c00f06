-- ===== src/Gateway/Entry.antt =====
-- `EnterRoom` of src/stationchat/protocol/Protocol.cpp, from the request to the room.
use stationapiv.Prelude.{
  ℕ, suc, ◌≡◌, refl, ◌∙◌, ap, true, List, [], ◌∷◌, ◌++◌, some, Text, any, text_eq, get_elem?, set,
  if◌then◌else◌, Bool-cases, inl, inr,
}
use mathlib.Core.Path.{subst}
use stationapiv.Exec.{Result, ok, raised, fault, Exec}
use stationapiv.Exec.Keeps.{Keeps, bind-Keeps}
use stationapiv.Exec.Fuel.{lift, resume}
use stationapiv.Storage.{Env}
use stationapiv.Avatar.{Ptr}
use stationapiv.Room.{ChatRoom}
use stationapiv.Room.Methods.{RoomState, enter_room}
use stationapiv.Room.Calls.{enters, call, may_enter}
use stationapiv.Room.Effect.{room-call}
use stationapiv.AvatarService.{by_id, get_cached_avatar}
use stationapiv.RoomService.{find_room}
use stationapiv.Protocol.Requests.{ReqEnterRoom}
use stationapiv.Gateway.{
  Recipient, client_of, Outgoing, m_enter_room, GatewayState, read_avatar, read_room, call_room,
  id_at, room_alive,
}
use stationapiv.Gateway.Outbox.{send_to, send_to_all, connected_addresses, send_enter_room_update}
use stationapiv.Gateway.Handlers.{found_or, lookup_room, room_at}
use stationapiv.Gateway.Handlers.Rooms.{handle_enter_room}
use stationapiv.Gateway.Outcomes.{src_avatar_cached}

-- What does not depend on the messages sent is kept by an update.
module _ (P : GatewayState → Type 0)
    (h : (g : GatewayState) (out : List (Recipient × Outgoing))
      → P g
      → P (record g { outbox = out })) where
  send_to-Keeps : (address : Text) (m : Outgoing) → Keeps P (send_to address m)
  unfolding send_to
  send_to-Keeps address m g k =
      elim (Bool-cases (any (λ (known : Text). text_eq known address) g.client_addresses)) [
        | inl e ↦ rw (e, send_to) (h g (g.outbox ++ (client_of address, m) ∷ []) k)
        | inr e ↦ rw (e, send_to) k
      ]

  send_to_all-Keeps : (addresses : List Text) (m : Outgoing) → Keeps P (send_to_all addresses m)
  unfolding send_to_all
  send_to_all-Keeps [] m g k = k
  send_to_all-Keeps (a ∷ others) m g k =
      bind-Keeps P (send_to a m) (λ _. send_to_all others m) (send_to-Keeps a m)
        (λ _. send_to_all-Keeps others m) g k

  read_room-Keeps : (place : ℕ) → Keeps P (read_room place)
  unfolding read_room
  read_room-Keeps place g k = k

  send_enter_room_update-Keeps : (p : Ptr) (place : ℕ) → Keeps P (send_enter_room_update p place)
  unfolding send_enter_room_update connected_addresses read_avatar
  send_enter_room_update-Keeps p place =
      bind-Keeps P (connected_addresses place) _
        (bind-Keeps P (read_room place) _ (read_room-Keeps place) (λ r g k. k))
        (λ to.
          bind-Keeps P (read_avatar p) _ (λ g k. k)
            (λ src.
              bind-Keeps P (read_room place) _ (read_room-Keeps place)
                (λ r. send_to_all-Keeps to (m_enter_room src r.room_id))))

  -- The end of a handler that sends such an update where all went well
  sent-Keeps :
      (p : Ptr) (place : ℕ) (o : Result (Unit {0})) (g : GatewayState)
      (out : Result (Unit {0}) × GatewayState)
      → resume (some (o, g)) (λ _. lift (send_enter_room_update p place)) ≡ some out
      → P g
      → P out.1
  unfolding resume
  sent-Keeps p place (ok u) g out e k =
      let same : send_enter_room_update p place g ≡ out = cc in
      subst (λ y. P y.1) same (send_enter_room_update-Keeps p place g k)
  sent-Keeps p place (raised x) g out e k =
      let same : (raised x, g) ≡ out = cc in subst (λ y. P y.1) same k
  sent-Keeps p place fault g out e k = let same : (fault, g) ≡ out = cc in subst (λ y. P y.1) same k

-- The call of a room whose avatars are alive
call_room_alive :
    (place : ℕ) (m : (Ptr → ℕ) → Exec RoomState (Unit {0})) (g : GatewayState) (room : ChatRoom)
    → get_elem? g.rooms place ≡ some room
    → room_alive g.avatar_cache room ≡ true
    → call_room place m g ≡ (
      (m (id_at g.avatar_cache) (record { room = room; history = g.history })).0,
      record g {
        rooms =
            set g.rooms place
              (m (id_at g.avatar_cache) (record { room = room; history = g.history })).1.room;
        history =
            (m (id_at g.avatar_cache) (record { room = room; history = g.history })).1.history;
      },
    )
unfolding call_room
call_room_alive place m g room hr alive = rw (hr, alive, call_room) refl

resumed :
    {A B : Type 0} (x : Result A) (g : GatewayState) (m : Exec GatewayState B)
    → (out : Result B × GatewayState) × (resume (some (x, g)) (λ _. lift m) ≡ some out)
unfolding resume
resumed (ok a) g m = (m g, refl)
resumed (raised e) g m = ((raised e, g), refl)
resumed fault g m = ((fault, g), refl)

-- A request of an avatar of the cache to enter a room that exists, whose avatars are alive: it ends
-- with the avatar at the end of the room exactly where the password, the bans, the invitations and
-- the members allow it, and else with all rooms as they were.
pub handle_enter_room_members :
    (env : Env) (n : ℕ) (g : GatewayState) (r : ReqEnterRoom) (p place : ℕ) (room : ChatRoom)
    → get_cached_avatar (by_id r.src_avatar_id) g.avatar_cache ≡ some p
    → find_room r.room_address g.rooms ≡ some place
    → get_elem? g.rooms place ≡ some room
    → room_alive g.avatar_cache room ≡ true
    → (out : Result (Unit {0}) × GatewayState) × (handle_enter_room env (suc n) r g ≡ some out)
      × (out.1.rooms
          ≡ set g.rooms place (
              if may_enter (id_at g.avatar_cache) room p r.room_password
              then record room { avatars = room.avatars ++ p ∷ [] }
              else room))
unfolding handle_enter_room room_at lookup_room found_or read_room call resume
handle_enter_room_members env n g r p place room hp hf hr alive =
    let entered =
      enter_room env (id_at g.avatar_cache) p r.room_password
        (record { room = room; history = g.history }) in
    let g' : GatewayState = record g {
      response = record g.response { room = some place; room_id = some room.room_id };
      rooms = set g.rooms place entered.1.room;
      history = entered.1.history;
    } in
    let opened : handle_enter_room env (suc n) r g
        ≡ resume (some (entered.0, g')) (λ _. lift (send_enter_room_update p place)) =
      let g1 : GatewayState = record g {
        response = record g.response { room = some place; room_id = some room.room_id };
      } in
      rw
        (
          src_avatar_cached env n g r.src_avatar_id p hp,
          hf,
          hr,
          call_room_alive place (λ id_of. enter_room env id_of p r.room_password) g1 room hr alive,
        )
        refl in
    let end = resumed entered.0 g' (send_enter_room_update p place) in
    (
      end.0,
      opened ∙ end.1,
      sent-Keeps (λ s. s.rooms ≡ set g.rooms place entered.1.room) (λ s o k. k) p place entered.0 g'
            end.0 end.1 refl
          ∙ ap (λ x. set g.rooms place x)
              (room-call env (id_at g.avatar_cache) (enters p r.room_password)
                (record { room = room; history = g.history })),
    )
