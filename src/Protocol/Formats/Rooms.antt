-- ===== src/Protocol/Formats/Rooms.antt =====
-- The layouts of the requests about rooms, and their reading.
use stationapiv.Prelude.{
  ℕ, ◌≡◌, refl, ◌∙◌, ◌++◌, true, false, List, [], ◌∷◌, Option, none, some, All,
}
use stationapiv.Wire.{Reader, read_bool, ◌>>=◌}
use stationapiv.Wire.RoundTrip.{bind-some}
use stationapiv.Protocol.Requests.{
  ReqCreateRoom, read_create_room, ReqDestroyRoom, read_destroy_room, ReqEnterRoom, read_enter_room,
  ReqLeaveRoom, read_leave_room, ReqGetRoom, read_get_room, ReqGetRoomSummaries,
  read_get_room_summaries, PassiveCreate, read_passive_create,
}
use stationapiv.Protocol.Formats.{
  Field, u32, flag, wide, Fits, encode, encode-append, All-front, All-back, read-u32, read-flag,
  read-wide,
}

unfoldable pub create_room_fields : ReqCreateRoom → List Field
create_room_fields r =
    u32 r.track
    ∷ u32 r.creator_id
    ∷ wide r.room_name
    ∷ wide r.room_topic
    ∷ wide r.room_password
    ∷ u32 r.room_attributes
    ∷ u32 r.room_max_size
    ∷ wide r.room_address
    ∷ wide r.src_address
    ∷ []

pub read-create_room :
    (r : ReqCreateRoom) (rest : List ℕ)
    → All Fits (create_room_fields r)
    → read_create_room (encode (create_room_fields r) rest) ≡ some (r, rest)
unfolding create_room_fields read_create_room
read-create_room r rest h =
    bind-some _ _ (read-u32 r.track _ h.0)
    ∙ bind-some _ _ (read-u32 r.creator_id _ h.1.0)
    ∙ bind-some _ _ (read-wide r.room_name _ h.1.1.0)
    ∙ bind-some _ _ (read-wide r.room_topic _ h.1.1.1.0)
    ∙ bind-some _ _ (read-wide r.room_password _ h.1.1.1.1.0)
    ∙ bind-some _ _ (read-u32 r.room_attributes _ h.1.1.1.1.1.0)
    ∙ bind-some _ _ (read-u32 r.room_max_size _ h.1.1.1.1.1.1.0)
    ∙ bind-some _ _ (read-wide r.room_address _ h.1.1.1.1.1.1.1.0)
    ∙ bind-some _ _ (read-wide r.src_address _ h.1.1.1.1.1.1.1.1.0)

unfoldable pub destroy_room_fields : ReqDestroyRoom → List Field
destroy_room_fields r =
    u32 r.track ∷ u32 r.src_avatar_id ∷ wide r.room_address ∷ wide r.src_address ∷ []

pub read-destroy_room :
    (r : ReqDestroyRoom) (rest : List ℕ)
    → All Fits (destroy_room_fields r)
    → read_destroy_room (encode (destroy_room_fields r) rest) ≡ some (r, rest)
unfolding destroy_room_fields read_destroy_room
read-destroy_room r rest h =
    bind-some _ _ (read-u32 r.track _ h.0)
    ∙ bind-some _ _ (read-u32 r.src_avatar_id _ h.1.0)
    ∙ bind-some _ _ (read-wide r.room_address _ h.1.1.0)
    ∙ bind-some _ _ (read-wide r.src_address _ h.1.1.1.0)

unfoldable pub passive_fields : Option PassiveCreate → List Field
passive_fields none = flag false ∷ []
passive_fields (some p) =
    flag true
    ∷ wide p.param_room_topic
    ∷ u32 p.param_room_attributes
    ∷ u32 p.param_room_max_size
    ∷ []

unfoldable pub enter_room_fields : ReqEnterRoom → List Field
enter_room_fields r =
    u32 r.track
    ∷ u32 r.src_avatar_id
    ∷ wide r.room_address
    ∷ wide r.room_password
    ∷ (passive_fields r.passive_create ++ flag r.requesting_entry ∷ wide r.src_address ∷ [])

read-passive {ℓ} :
    {B : Type ℓ} (p : Option PassiveCreate) (f : Option PassiveCreate → Reader B) (rest : List ℕ)
    → All Fits (passive_fields p)
    → (read_bool >>= λ b. read_passive_create b >>= f) (encode (passive_fields p) rest) ≡ f p rest
unfolding passive_fields read_passive_create
read-passive none f rest h = bind-some _ _ (read-flag false rest tt) ∙ bind-some _ _ refl
read-passive (some p) f rest h =
    bind-some _ _ (read-flag true _ tt)
    ∙ bind-some _ f (
        bind-some _ _ (read-wide p.param_room_topic _ h.1.0)
        ∙ bind-some _ _ (read-u32 p.param_room_attributes _ h.1.1.0)
        ∙ bind-some _ _ (read-u32 p.param_room_max_size rest h.1.1.1.0))

pub read-enter_room :
    (r : ReqEnterRoom) (rest : List ℕ)
    → All Fits (enter_room_fields r)
    → read_enter_room (encode (enter_room_fields r) rest) ≡ some (r, rest)
unfolding enter_room_fields read_enter_room
read-enter_room r rest h =
    let tail : List Field = flag r.requesting_entry ∷ wide r.src_address ∷ [] in
    let back : All Fits tail = All-back (passive_fields r.passive_create) tail h.1.1.1.1 in
    bind-some _ _ (read-u32 r.track _ h.0)
    ∙ bind-some _ _ (read-u32 r.src_avatar_id _ h.1.0)
    ∙ bind-some _ _ (read-wide r.room_address _ h.1.1.0)
    ∙ bind-some _ _ (read-wide r.room_password _ h.1.1.1.0)
    ∙ rw (encode-append (passive_fields r.passive_create) tail rest) (
        read-passive r.passive_create _ _
          (All-front (passive_fields r.passive_create) tail h.1.1.1.1)
        ∙ bind-some _ _ (read-flag r.requesting_entry _ back.0)
        ∙ bind-some _ _ (read-wide r.src_address _ back.1.0))

unfoldable pub leave_room_fields : ReqLeaveRoom → List Field
leave_room_fields r =
    u32 r.track ∷ u32 r.src_avatar_id ∷ wide r.room_address ∷ wide r.src_address ∷ []

pub read-leave_room :
    (r : ReqLeaveRoom) (rest : List ℕ)
    → All Fits (leave_room_fields r)
    → read_leave_room (encode (leave_room_fields r) rest) ≡ some (r, rest)
unfolding leave_room_fields read_leave_room
read-leave_room r rest h =
    bind-some _ _ (read-u32 r.track _ h.0)
    ∙ bind-some _ _ (read-u32 r.src_avatar_id _ h.1.0)
    ∙ bind-some _ _ (read-wide r.room_address _ h.1.1.0)
    ∙ bind-some _ _ (read-wide r.src_address _ h.1.1.1.0)

unfoldable pub get_room_fields : ReqGetRoom → List Field
get_room_fields r = u32 r.track ∷ wide r.room_address ∷ []

pub read-get_room :
    (r : ReqGetRoom) (rest : List ℕ)
    → All Fits (get_room_fields r)
    → read_get_room (encode (get_room_fields r) rest) ≡ some (r, rest)
unfolding get_room_fields read_get_room
read-get_room r rest h =
    bind-some _ _ (read-u32 r.track _ h.0) ∙ bind-some _ _ (read-wide r.room_address _ h.1.0)

unfoldable pub get_room_summaries_fields : ReqGetRoomSummaries → List Field
get_room_summaries_fields r = u32 r.track ∷ wide r.start_node_address ∷ wide r.room_filter ∷ []

pub read-get_room_summaries :
    (r : ReqGetRoomSummaries) (rest : List ℕ)
    → All Fits (get_room_summaries_fields r)
    → read_get_room_summaries (encode (get_room_summaries_fields r) rest) ≡ some (r, rest)
unfolding get_room_summaries_fields read_get_room_summaries
read-get_room_summaries r rest h =
    bind-some _ _ (read-u32 r.track _ h.0)
    ∙ bind-some _ _ (read-wide r.start_node_address _ h.1.0)
    ∙ bind-some _ _ (read-wide r.room_filter _ h.1.1.0)
