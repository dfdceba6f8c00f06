-- ===== src/Protocol/Formats/Contacts.antt =====
-- The layouts of the requests about friends and ignored avatars, and their reading.
use stationapiv.Prelude.{ℕ, ◌≡◌, ◌∙◌, List, [], ◌∷◌, some, All}
use stationapiv.Wire.RoundTrip.{bind-some}
use stationapiv.Protocol.Requests.{
  ReqAddFriend, read_add_friend, ReqRemoveFriend, read_remove_friend, ReqFriendStatus,
  read_friend_status, ReqAddIgnore, read_add_ignore, ReqRemoveIgnore, read_remove_ignore,
  ReqIgnoreStatus, read_ignore_status,
}
use stationapiv.Protocol.Formats.{
  Field, u32, flag, wide, Fits, encode, read-u32, read-flag, read-wide,
}

unfoldable pub add_friend_fields : ReqAddFriend → List Field
add_friend_fields r =
    u32 r.track
    ∷ u32 r.src_avatar_id
    ∷ wide r.dest_name
    ∷ wide r.dest_address
    ∷ wide r.comment
    ∷ flag r.confirm
    ∷ wide r.src_address
    ∷ []

pub read-add_friend :
    (r : ReqAddFriend) (rest : List ℕ)
    → All Fits (add_friend_fields r)
    → read_add_friend (encode (add_friend_fields r) rest) ≡ some (r, rest)
unfolding add_friend_fields read_add_friend
read-add_friend r rest h =
    bind-some _ _ (read-u32 r.track _ h.0)
    ∙ bind-some _ _ (read-u32 r.src_avatar_id _ h.1.0)
    ∙ bind-some _ _ (read-wide r.dest_name _ h.1.1.0)
    ∙ bind-some _ _ (read-wide r.dest_address _ h.1.1.1.0)
    ∙ bind-some _ _ (read-wide r.comment _ h.1.1.1.1.0)
    ∙ bind-some _ _ (read-flag r.confirm _ h.1.1.1.1.1.0)
    ∙ bind-some _ _ (read-wide r.src_address _ h.1.1.1.1.1.1.0)

unfoldable pub remove_friend_fields : ReqRemoveFriend → List Field
remove_friend_fields r =
    u32 r.track
    ∷ u32 r.src_avatar_id
    ∷ wide r.dest_name
    ∷ wide r.dest_address
    ∷ wide r.src_address
    ∷ []

pub read-remove_friend :
    (r : ReqRemoveFriend) (rest : List ℕ)
    → All Fits (remove_friend_fields r)
    → read_remove_friend (encode (remove_friend_fields r) rest) ≡ some (r, rest)
unfolding remove_friend_fields read_remove_friend
read-remove_friend r rest h =
    bind-some _ _ (read-u32 r.track _ h.0)
    ∙ bind-some _ _ (read-u32 r.src_avatar_id _ h.1.0)
    ∙ bind-some _ _ (read-wide r.dest_name _ h.1.1.0)
    ∙ bind-some _ _ (read-wide r.dest_address _ h.1.1.1.0)
    ∙ bind-some _ _ (read-wide r.src_address _ h.1.1.1.1.0)

unfoldable pub friend_status_fields : ReqFriendStatus → List Field
friend_status_fields r = u32 r.track ∷ u32 r.src_avatar_id ∷ wide r.src_address ∷ []

pub read-friend_status :
    (r : ReqFriendStatus) (rest : List ℕ)
    → All Fits (friend_status_fields r)
    → read_friend_status (encode (friend_status_fields r) rest) ≡ some (r, rest)
unfolding friend_status_fields read_friend_status
read-friend_status r rest h =
    bind-some _ _ (read-u32 r.track _ h.0)
    ∙ bind-some _ _ (read-u32 r.src_avatar_id _ h.1.0)
    ∙ bind-some _ _ (read-wide r.src_address _ h.1.1.0)

unfoldable pub add_ignore_fields : ReqAddIgnore → List Field
add_ignore_fields r =
    u32 r.track
    ∷ u32 r.src_avatar_id
    ∷ wide r.dest_name
    ∷ wide r.dest_address
    ∷ wide r.src_address
    ∷ []

pub read-add_ignore :
    (r : ReqAddIgnore) (rest : List ℕ)
    → All Fits (add_ignore_fields r)
    → read_add_ignore (encode (add_ignore_fields r) rest) ≡ some (r, rest)
unfolding add_ignore_fields read_add_ignore
read-add_ignore r rest h =
    bind-some _ _ (read-u32 r.track _ h.0)
    ∙ bind-some _ _ (read-u32 r.src_avatar_id _ h.1.0)
    ∙ bind-some _ _ (read-wide r.dest_name _ h.1.1.0)
    ∙ bind-some _ _ (read-wide r.dest_address _ h.1.1.1.0)
    ∙ bind-some _ _ (read-wide r.src_address _ h.1.1.1.1.0)

unfoldable pub remove_ignore_fields : ReqRemoveIgnore → List Field
remove_ignore_fields r =
    u32 r.track
    ∷ u32 r.src_avatar_id
    ∷ wide r.dest_name
    ∷ wide r.dest_address
    ∷ wide r.src_address
    ∷ []

pub read-remove_ignore :
    (r : ReqRemoveIgnore) (rest : List ℕ)
    → All Fits (remove_ignore_fields r)
    → read_remove_ignore (encode (remove_ignore_fields r) rest) ≡ some (r, rest)
unfolding remove_ignore_fields read_remove_ignore
read-remove_ignore r rest h =
    bind-some _ _ (read-u32 r.track _ h.0)
    ∙ bind-some _ _ (read-u32 r.src_avatar_id _ h.1.0)
    ∙ bind-some _ _ (read-wide r.dest_name _ h.1.1.0)
    ∙ bind-some _ _ (read-wide r.dest_address _ h.1.1.1.0)
    ∙ bind-some _ _ (read-wide r.src_address _ h.1.1.1.1.0)

unfoldable pub ignore_status_fields : ReqIgnoreStatus → List Field
ignore_status_fields r = u32 r.track ∷ u32 r.src_avatar_id ∷ wide r.src_address ∷ []

pub read-ignore_status :
    (r : ReqIgnoreStatus) (rest : List ℕ)
    → All Fits (ignore_status_fields r)
    → read_ignore_status (encode (ignore_status_fields r) rest) ≡ some (r, rest)
unfolding ignore_status_fields read_ignore_status
read-ignore_status r rest h =
    bind-some _ _ (read-u32 r.track _ h.0)
    ∙ bind-some _ _ (read-u32 r.src_avatar_id _ h.1.0)
    ∙ bind-some _ _ (read-wide r.src_address _ h.1.1.0)
