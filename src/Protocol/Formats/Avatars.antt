-- ===== src/Protocol/Formats/Avatars.antt =====
-- The layouts of the requests about avatars and the handshake, and their reading.
use stationapiv.Prelude.{ℕ, ◌≡◌, ◌∙◌, List, [], ◌∷◌, some, All}
use stationapiv.Wire.RoundTrip.{bind-some}
use stationapiv.Protocol.Requests.{
  ReqLoginAvatar, read_login_avatar, ReqLogoutAvatar, read_logout_avatar, ReqDestroyAvatar,
  read_destroy_avatar, ReqFailoverReLoginAvatar, read_failover_re_login_avatar, ReqGetAnyAvatar,
  read_get_any_avatar, ReqSetAvatarAttributes, read_set_avatar_attributes, ReqSetApiVersion,
  read_set_api_version,
}
use stationapiv.Protocol.Formats.{Field, u32, wide, Fits, encode, read-u32, read-wide}

unfoldable pub login_avatar_fields : ReqLoginAvatar → List Field
login_avatar_fields r =
    u32 r.track
    ∷ u32 r.user_id
    ∷ wide r.name
    ∷ wide r.address
    ∷ wide r.login_location
    ∷ u32 r.login_priority
    ∷ u32 r.login_attributes
    ∷ []

pub read-login_avatar :
    (r : ReqLoginAvatar) (rest : List ℕ)
    → All Fits (login_avatar_fields r)
    → read_login_avatar (encode (login_avatar_fields r) rest) ≡ some (r, rest)
unfolding login_avatar_fields read_login_avatar
read-login_avatar r rest h =
    bind-some _ _ (read-u32 r.track _ h.0)
    ∙ bind-some _ _ (read-u32 r.user_id _ h.1.0)
    ∙ bind-some _ _ (read-wide r.name _ h.1.1.0)
    ∙ bind-some _ _ (read-wide r.address _ h.1.1.1.0)
    ∙ bind-some _ _ (read-wide r.login_location _ h.1.1.1.1.0)
    ∙ bind-some _ _ (read-u32 r.login_priority _ h.1.1.1.1.1.0)
    ∙ bind-some _ _ (read-u32 r.login_attributes _ h.1.1.1.1.1.1.0)

unfoldable pub logout_avatar_fields : ReqLogoutAvatar → List Field
logout_avatar_fields r = u32 r.track ∷ u32 r.avatar_id ∷ []

pub read-logout_avatar :
    (r : ReqLogoutAvatar) (rest : List ℕ)
    → All Fits (logout_avatar_fields r)
    → read_logout_avatar (encode (logout_avatar_fields r) rest) ≡ some (r, rest)
unfolding logout_avatar_fields read_logout_avatar
read-logout_avatar r rest h =
    bind-some _ _ (read-u32 r.track _ h.0) ∙ bind-some _ _ (read-u32 r.avatar_id _ h.1.0)

unfoldable pub destroy_avatar_fields : ReqDestroyAvatar → List Field
destroy_avatar_fields r = u32 r.track ∷ u32 r.avatar_id ∷ wide r.address ∷ []

pub read-destroy_avatar :
    (r : ReqDestroyAvatar) (rest : List ℕ)
    → All Fits (destroy_avatar_fields r)
    → read_destroy_avatar (encode (destroy_avatar_fields r) rest) ≡ some (r, rest)
unfolding destroy_avatar_fields read_destroy_avatar
read-destroy_avatar r rest h =
    bind-some _ _ (read-u32 r.track _ h.0)
    ∙ bind-some _ _ (read-u32 r.avatar_id _ h.1.0)
    ∙ bind-some _ _ (read-wide r.address _ h.1.1.0)

unfoldable pub failover_re_login_avatar_fields : ReqFailoverReLoginAvatar → List Field
failover_re_login_avatar_fields r =
    u32 r.track
    ∷ u32 r.avatar_id
    ∷ u32 r.user_id
    ∷ wide r.name
    ∷ wide r.address
    ∷ wide r.login_location
    ∷ u32 r.login_priority
    ∷ u32 r.attributes
    ∷ []

pub read-failover_re_login_avatar :
    (r : ReqFailoverReLoginAvatar) (rest : List ℕ)
    → All Fits (failover_re_login_avatar_fields r)
    → read_failover_re_login_avatar (encode (failover_re_login_avatar_fields r) rest)
      ≡ some (r, rest)
unfolding failover_re_login_avatar_fields read_failover_re_login_avatar
read-failover_re_login_avatar r rest h =
    bind-some _ _ (read-u32 r.track _ h.0)
    ∙ bind-some _ _ (read-u32 r.avatar_id _ h.1.0)
    ∙ bind-some _ _ (read-u32 r.user_id _ h.1.1.0)
    ∙ bind-some _ _ (read-wide r.name _ h.1.1.1.0)
    ∙ bind-some _ _ (read-wide r.address _ h.1.1.1.1.0)
    ∙ bind-some _ _ (read-wide r.login_location _ h.1.1.1.1.1.0)
    ∙ bind-some _ _ (read-u32 r.login_priority _ h.1.1.1.1.1.1.0)
    ∙ bind-some _ _ (read-u32 r.attributes _ h.1.1.1.1.1.1.1.0)

unfoldable pub get_any_avatar_fields : ReqGetAnyAvatar → List Field
get_any_avatar_fields r = u32 r.track ∷ wide r.name ∷ wide r.address ∷ []

pub read-get_any_avatar :
    (r : ReqGetAnyAvatar) (rest : List ℕ)
    → All Fits (get_any_avatar_fields r)
    → read_get_any_avatar (encode (get_any_avatar_fields r) rest) ≡ some (r, rest)
unfolding get_any_avatar_fields read_get_any_avatar
read-get_any_avatar r rest h =
    bind-some _ _ (read-u32 r.track _ h.0)
    ∙ bind-some _ _ (read-wide r.name _ h.1.0)
    ∙ bind-some _ _ (read-wide r.address _ h.1.1.0)

unfoldable pub set_avatar_attributes_fields : ReqSetAvatarAttributes → List Field
set_avatar_attributes_fields r =
    u32 r.track
    ∷ u32 r.avatar_id
    ∷ u32 r.avatar_attributes
    ∷ u32 r.persistent
    ∷ wide r.src_address
    ∷ []

pub read-set_avatar_attributes :
    (r : ReqSetAvatarAttributes) (rest : List ℕ)
    → All Fits (set_avatar_attributes_fields r)
    → read_set_avatar_attributes (encode (set_avatar_attributes_fields r) rest) ≡ some (r, rest)
unfolding set_avatar_attributes_fields read_set_avatar_attributes
read-set_avatar_attributes r rest h =
    bind-some _ _ (read-u32 r.track _ h.0)
    ∙ bind-some _ _ (read-u32 r.avatar_id _ h.1.0)
    ∙ bind-some _ _ (read-u32 r.avatar_attributes _ h.1.1.0)
    ∙ bind-some _ _ (read-u32 r.persistent _ h.1.1.1.0)
    ∙ bind-some _ _ (read-wide r.src_address _ h.1.1.1.1.0)

unfoldable pub set_api_version_fields : ReqSetApiVersion → List Field
set_api_version_fields r = u32 r.track ∷ u32 r.version ∷ []

pub read-set_api_version :
    (r : ReqSetApiVersion) (rest : List ℕ)
    → All Fits (set_api_version_fields r)
    → read_set_api_version (encode (set_api_version_fields r) rest) ≡ some (r, rest)
unfolding set_api_version_fields read_set_api_version
read-set_api_version r rest h =
    bind-some _ _ (read-u32 r.track _ h.0) ∙ bind-some _ _ (read-u32 r.version _ h.1.0)
