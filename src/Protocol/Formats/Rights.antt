-- ===== src/Protocol/Formats/Rights.antt =====
-- The layouts of the requests about moderators, bans, invitations and kicks, and their reading.
use stationapiv.Prelude.{ℕ, ◌≡◌, ◌∙◌, List, [], ◌∷◌, some, All}
use stationapiv.Wire.RoundTrip.{bind-some}
use stationapiv.Protocol.Requests.{
  ReqAddModerator, read_add_moderator, ReqRemoveModerator, read_remove_moderator, ReqAddBan,
  read_add_ban, ReqRemoveBan, read_remove_ban, ReqAddInvite, read_add_invite, ReqRemoveInvite,
  read_remove_invite, ReqKickAvatar, read_kick_avatar,
}
use stationapiv.Protocol.Formats.{Field, u32, wide, Fits, encode, read-u32, read-wide}

unfoldable pub add_moderator_fields : ReqAddModerator → List Field
add_moderator_fields r =
    u32 r.track
    ∷ u32 r.src_avatar_id
    ∷ wide r.dest_avatar_name
    ∷ wide r.dest_avatar_address
    ∷ wide r.dest_room_address
    ∷ wide r.src_address
    ∷ []

pub read-add_moderator :
    (r : ReqAddModerator) (rest : List ℕ)
    → All Fits (add_moderator_fields r)
    → read_add_moderator (encode (add_moderator_fields r) rest) ≡ some (r, rest)
unfolding add_moderator_fields read_add_moderator
read-add_moderator r rest h =
    bind-some _ _ (read-u32 r.track _ h.0)
    ∙ bind-some _ _ (read-u32 r.src_avatar_id _ h.1.0)
    ∙ bind-some _ _ (read-wide r.dest_avatar_name _ h.1.1.0)
    ∙ bind-some _ _ (read-wide r.dest_avatar_address _ h.1.1.1.0)
    ∙ bind-some _ _ (read-wide r.dest_room_address _ h.1.1.1.1.0)
    ∙ bind-some _ _ (read-wide r.src_address _ h.1.1.1.1.1.0)

unfoldable pub remove_moderator_fields : ReqRemoveModerator → List Field
remove_moderator_fields r =
    u32 r.track
    ∷ u32 r.src_avatar_id
    ∷ wide r.dest_avatar_name
    ∷ wide r.dest_avatar_address
    ∷ wide r.dest_room_address
    ∷ wide r.src_address
    ∷ []

pub read-remove_moderator :
    (r : ReqRemoveModerator) (rest : List ℕ)
    → All Fits (remove_moderator_fields r)
    → read_remove_moderator (encode (remove_moderator_fields r) rest) ≡ some (r, rest)
unfolding remove_moderator_fields read_remove_moderator
read-remove_moderator r rest h =
    bind-some _ _ (read-u32 r.track _ h.0)
    ∙ bind-some _ _ (read-u32 r.src_avatar_id _ h.1.0)
    ∙ bind-some _ _ (read-wide r.dest_avatar_name _ h.1.1.0)
    ∙ bind-some _ _ (read-wide r.dest_avatar_address _ h.1.1.1.0)
    ∙ bind-some _ _ (read-wide r.dest_room_address _ h.1.1.1.1.0)
    ∙ bind-some _ _ (read-wide r.src_address _ h.1.1.1.1.1.0)

unfoldable pub add_ban_fields : ReqAddBan → List Field
add_ban_fields r =
    u32 r.track
    ∷ u32 r.src_avatar_id
    ∷ wide r.dest_avatar_name
    ∷ wide r.dest_avatar_address
    ∷ wide r.dest_room_address
    ∷ wide r.src_address
    ∷ []

pub read-add_ban :
    (r : ReqAddBan) (rest : List ℕ)
    → All Fits (add_ban_fields r)
    → read_add_ban (encode (add_ban_fields r) rest) ≡ some (r, rest)
unfolding add_ban_fields read_add_ban
read-add_ban r rest h =
    bind-some _ _ (read-u32 r.track _ h.0)
    ∙ bind-some _ _ (read-u32 r.src_avatar_id _ h.1.0)
    ∙ bind-some _ _ (read-wide r.dest_avatar_name _ h.1.1.0)
    ∙ bind-some _ _ (read-wide r.dest_avatar_address _ h.1.1.1.0)
    ∙ bind-some _ _ (read-wide r.dest_room_address _ h.1.1.1.1.0)
    ∙ bind-some _ _ (read-wide r.src_address _ h.1.1.1.1.1.0)

unfoldable pub remove_ban_fields : ReqRemoveBan → List Field
remove_ban_fields r =
    u32 r.track
    ∷ u32 r.src_avatar_id
    ∷ wide r.dest_avatar_name
    ∷ wide r.dest_avatar_address
    ∷ wide r.dest_room_address
    ∷ wide r.src_address
    ∷ []

pub read-remove_ban :
    (r : ReqRemoveBan) (rest : List ℕ)
    → All Fits (remove_ban_fields r)
    → read_remove_ban (encode (remove_ban_fields r) rest) ≡ some (r, rest)
unfolding remove_ban_fields read_remove_ban
read-remove_ban r rest h =
    bind-some _ _ (read-u32 r.track _ h.0)
    ∙ bind-some _ _ (read-u32 r.src_avatar_id _ h.1.0)
    ∙ bind-some _ _ (read-wide r.dest_avatar_name _ h.1.1.0)
    ∙ bind-some _ _ (read-wide r.dest_avatar_address _ h.1.1.1.0)
    ∙ bind-some _ _ (read-wide r.dest_room_address _ h.1.1.1.1.0)
    ∙ bind-some _ _ (read-wide r.src_address _ h.1.1.1.1.1.0)

unfoldable pub add_invite_fields : ReqAddInvite → List Field
add_invite_fields r =
    u32 r.track
    ∷ u32 r.src_avatar_id
    ∷ wide r.dest_avatar_name
    ∷ wide r.dest_avatar_address
    ∷ wide r.dest_room_address
    ∷ wide r.src_address
    ∷ []

pub read-add_invite :
    (r : ReqAddInvite) (rest : List ℕ)
    → All Fits (add_invite_fields r)
    → read_add_invite (encode (add_invite_fields r) rest) ≡ some (r, rest)
unfolding add_invite_fields read_add_invite
read-add_invite r rest h =
    bind-some _ _ (read-u32 r.track _ h.0)
    ∙ bind-some _ _ (read-u32 r.src_avatar_id _ h.1.0)
    ∙ bind-some _ _ (read-wide r.dest_avatar_name _ h.1.1.0)
    ∙ bind-some _ _ (read-wide r.dest_avatar_address _ h.1.1.1.0)
    ∙ bind-some _ _ (read-wide r.dest_room_address _ h.1.1.1.1.0)
    ∙ bind-some _ _ (read-wide r.src_address _ h.1.1.1.1.1.0)

unfoldable pub remove_invite_fields : ReqRemoveInvite → List Field
remove_invite_fields r =
    u32 r.track
    ∷ u32 r.src_avatar_id
    ∷ wide r.dest_avatar_name
    ∷ wide r.dest_avatar_address
    ∷ wide r.dest_room_address
    ∷ wide r.src_address
    ∷ []

pub read-remove_invite :
    (r : ReqRemoveInvite) (rest : List ℕ)
    → All Fits (remove_invite_fields r)
    → read_remove_invite (encode (remove_invite_fields r) rest) ≡ some (r, rest)
unfolding remove_invite_fields read_remove_invite
read-remove_invite r rest h =
    bind-some _ _ (read-u32 r.track _ h.0)
    ∙ bind-some _ _ (read-u32 r.src_avatar_id _ h.1.0)
    ∙ bind-some _ _ (read-wide r.dest_avatar_name _ h.1.1.0)
    ∙ bind-some _ _ (read-wide r.dest_avatar_address _ h.1.1.1.0)
    ∙ bind-some _ _ (read-wide r.dest_room_address _ h.1.1.1.1.0)
    ∙ bind-some _ _ (read-wide r.src_address _ h.1.1.1.1.1.0)

unfoldable pub kick_avatar_fields : ReqKickAvatar → List Field
kick_avatar_fields r =
    u32 r.track
    ∷ u32 r.src_avatar_id
    ∷ wide r.dest_avatar_name
    ∷ wide r.dest_avatar_address
    ∷ wide r.dest_room_address
    ∷ wide r.src_address
    ∷ []

pub read-kick_avatar :
    (r : ReqKickAvatar) (rest : List ℕ)
    → All Fits (kick_avatar_fields r)
    → read_kick_avatar (encode (kick_avatar_fields r) rest) ≡ some (r, rest)
unfolding kick_avatar_fields read_kick_avatar
read-kick_avatar r rest h =
    bind-some _ _ (read-u32 r.track _ h.0)
    ∙ bind-some _ _ (read-u32 r.src_avatar_id _ h.1.0)
    ∙ bind-some _ _ (read-wide r.dest_avatar_name _ h.1.1.0)
    ∙ bind-some _ _ (read-wide r.dest_avatar_address _ h.1.1.1.0)
    ∙ bind-some _ _ (read-wide r.dest_room_address _ h.1.1.1.1.0)
    ∙ bind-some _ _ (read-wide r.src_address _ h.1.1.1.1.1.0)
