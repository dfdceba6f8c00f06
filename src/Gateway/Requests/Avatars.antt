-- ===== src/Gateway/Requests/Avatars.antt =====
-- The handlers for avatars as a whole, and those of the mail, where they throw.
use stationapiv.Prelude.{
  ◌≡◌, ℕ, refl, Bool, true, false, not, Option, none, some, Text, text_eq, codes, ◌==◌,
  if◌then◌else◌,
}
use stationapiv.Exec.{Exec, pure, when, undefined}
use stationapiv.Exec.Fuel.{Run, lift, ◌>>=◌, for_each}
use stationapiv.Storage.{Env}
use stationapiv.Avatar.{Ptr, ChatAvatar}
use stationapiv.Enums.ResultCode.{srcavatardoesntexist}
use stationapiv.AvatarService.{
  logout, AvatarService, by_id, by_name, login, create_avatar, change_avatar, update_row,
}
use stationapiv.RoomService.{load_rooms_from_storage}
use stationapiv.Protocol.Requests.{
  ReqLoginAvatar, ReqLogoutAvatar, ReqFailoverReLoginAvatar, ReqGetAnyAvatar,
  ReqSetAvatarAttributes, ReqSetApiVersion,
}
use stationapiv.Website.Mirror.{record_avatar_login, record_avatar_logout}
use stationapiv.Gateway.{
  on_history, GatewayState, respond, look_up, on_avatars, on_rooms, read_avatar,
}
use stationapiv.Gateway.Outbox.{send_friend_login_updates, send_friend_logout_updates}
use stationapiv.Gateway.Handlers.{found_or, src_avatar}
use stationapiv.Gateway.Handlers.Avatars.{
  joined_rooms, register_client_address, leave_all, log_out, handle_logout_avatar, login_or_create,
  log_in, handle_login_avatar, enter_joined, handle_failover, handle_get_any_avatar,
  handle_set_avatar_attributes, handle_set_api_version,
}
use stationapiv.Gateway.Silence.{
  is_raised, NeverRaises, IsSilent, IsMild, IsQuiet, IsSilent→IsQuiet, IsMild→IsQuiet,
  bind-IsSilent, bind-IsMild, bind-IsQuiet, bind_IsMild-IsQuiet, for_each-IsMild, lift-IsSilent,
  lift-IsMild,
}
use stationapiv.Gateway.Updates.{
  look_up-IsSilent, read_avatar-NeverRaises, send_enter_room_update-NeverRaises,
  send_friend_login_updates-NeverRaises, send_friend_logout_updates-NeverRaises,
}
use stationapiv.Gateway.Calls.{
  found_or-IsSilent, read_avatar-IsSilent, respond-IsSilent, respond-IsMild,
  joined_rooms-NeverRaises, logout-IsMild, src_avatar-IsSilent, leave_all-IsMild,
}

on_avatars-IsSilent : {A : Type 0} (m : Exec AvatarService A) → IsSilent (lift (on_avatars m))
on_avatars-IsSilent m = lift-IsSilent (on_avatars m) (λ g. refl)

when-IsSilent :
    (b : Bool) (m : Exec AvatarService (Unit {0})) → IsSilent (lift (when b (on_avatars m)))
when-IsSilent true m = on_avatars-IsSilent m
when-IsSilent false m = lift-IsSilent (pure tt) (λ g. refl)

branch-IsQuiet :
    {A : Type 0} (b : Bool) (m n : Run GatewayState A)
    → IsQuiet m
    → IsQuiet n
    → IsQuiet (λ g. (if b then m else n) g)
branch-IsQuiet true m n h k = h
branch-IsQuiet false m n h k = k

-- With the integration of the website switched off, a logout writes to no table of it.
disabled-NeverRaises :
    (env : Env) (a : ChatAvatar)
    → env.website.enabled ≡ false
    → NeverRaises (on_history (record_avatar_logout env a))
unfolding record_avatar_logout
disabled-NeverRaises env a off g = rw (off, is_raised) refl

module _ (env : Env) (fuel : ℕ) where
  log_out-IsMild : env.website.enabled ≡ false → (o : Option Ptr) → IsMild (log_out env fuel o)
  unfolding log_out
  log_out-IsMild off none = lift-IsMild undefined (λ g. refl)
  log_out-IsMild off (some p) =
      bind-IsMild (leave_all env fuel p) _ (leave_all-IsMild env fuel p) (λ x.
        bind-IsMild (lift (send_friend_logout_updates p)) _
          (lift-IsMild _ (send_friend_logout_updates-NeverRaises p))
          (λ y. bind-IsMild (lift (on_avatars (logout p))) _ (logout-IsMild p) (λ z.
            bind-IsMild (lift (read_avatar p)) _ (lift-IsMild _ (read_avatar-NeverRaises p))
              (λ a. lift-IsMild _ (disabled-NeverRaises env a off)))))

  pub handle_logout_avatar-IsQuiet :
      env.website.enabled ≡ false
      → (r : ReqLogoutAvatar) → IsQuiet (handle_logout_avatar env fuel r)
  unfolding handle_logout_avatar
  handle_logout_avatar-IsQuiet off r =
      bind-IsQuiet (look_up env fuel (by_id r.avatar_id)) (log_out env fuel)
        (look_up-IsSilent env fuel _) (λ o. IsMild→IsQuiet _ (log_out-IsMild off o))

  login_or_create-IsSilent :
      (name address : Text) (user_id attributes : ℕ) (location : Text) (o : Option Ptr)
      → IsSilent (login_or_create env fuel name address user_id attributes location o)
  unfolding login_or_create
  login_or_create-IsSilent name address user_id attributes location none =
      on_avatars-IsSilent (create_avatar env name address user_id attributes location)
  login_or_create-IsSilent name address user_id attributes location (some p) =
      lift-IsSilent (pure p) (λ g. refl)

  -- The rooms are loaded, or else the friends told.
  log_in-IsQuiet : (address : Text) (p : Ptr) → IsQuiet (log_in env fuel address p)
  unfolding log_in register_client_address
  log_in-IsQuiet address p =
      bind-IsQuiet (lift (on_avatars (login p))) _ (on_avatars-IsSilent (login p)) (λ x.
        bind-IsQuiet (lift (read_avatar p)) _ (read_avatar-IsSilent p) (λ a.
          bind-IsQuiet (lift (on_history (record_avatar_login env a))) _
            (lift-IsSilent _ (λ g. refl))
            (λ z.
              branch-IsQuiet (text_eq a.name (codes "SYSTEM")) _ _
                (IsSilent→IsQuiet _ (
                  bind-IsSilent (lift (register_client_address a.address)) _
                    (lift-IsSilent _ (λ g. refl))
                    (λ y.
                      lift-IsSilent (on_rooms (load_rooms_from_storage env address)) (λ g. refl))))
                (IsMild→IsQuiet (lift (send_friend_login_updates p))
                  (lift-IsMild _ (send_friend_login_updates-NeverRaises p))))))

  pub handle_login_avatar-IsQuiet : (r : ReqLoginAvatar) → IsQuiet (handle_login_avatar env fuel r)
  unfolding handle_login_avatar
  handle_login_avatar-IsQuiet r =
      bind-IsQuiet (look_up env fuel (by_name r.name r.address)) _ (look_up-IsSilent env fuel _)
        (λ o.
          bind-IsQuiet
            (login_or_create env fuel r.name r.address r.user_id r.login_attributes r.login_location
              o)
            _ (login_or_create-IsSilent _ _ _ _ _ o)
            (λ p.
              bind_IsMild-IsQuiet (log_in env fuel r.address p) _ (log_in-IsQuiet r.address p)
                (λ x. respond-IsMild _)))

  enter_all-IsMild :
      (p : Ptr) (a : ChatAvatar)
      → IsMild
          (lift (joined_rooms a.avatar_id) >>= λ places. for_each (enter_joined env fuel p) places)
  unfolding enter_joined
  enter_all-IsMild p a =
      bind-IsMild (lift (joined_rooms a.avatar_id)) _
        (lift-IsMild _ (joined_rooms-NeverRaises a.avatar_id))
        (λ places.
          for_each-IsMild (enter_joined env fuel p) places
            (λ place. lift-IsMild _ (send_enter_room_update-NeverRaises p place)))

  pub handle_failover-IsQuiet :
      (r : ReqFailoverReLoginAvatar) → IsQuiet (handle_failover env fuel r)
  unfolding handle_failover
  handle_failover-IsQuiet r =
      bind-IsQuiet (look_up env fuel (by_name r.name r.address)) _ (look_up-IsSilent env fuel _)
        (λ o.
          bind-IsQuiet
            (login_or_create env fuel r.name r.address r.user_id r.attributes r.login_location o) _
            (login_or_create-IsSilent _ _ _ _ _ o)
            (λ p.
              bind_IsMild-IsQuiet (log_in env fuel r.address p) _ (log_in-IsQuiet r.address p) (λ x.
                bind-IsMild (lift (read_avatar p)) _ (lift-IsMild _ (read_avatar-NeverRaises p))
                  (λ a. enter_all-IsMild p a))))

  pub handle_get_any_avatar-IsQuiet :
      (r : ReqGetAnyAvatar) → IsQuiet (handle_get_any_avatar env fuel r)
  unfolding handle_get_any_avatar
  handle_get_any_avatar-IsQuiet r =
      bind-IsQuiet (look_up env fuel (by_name r.name r.address) >>= found_or srcavatardoesntexist) _
        (bind-IsSilent (look_up env fuel (by_name r.name r.address)) (found_or srcavatardoesntexist)
          (look_up-IsSilent env fuel _) (found_or-IsSilent srcavatardoesntexist))
        (λ p.
          bind-IsQuiet (lift (read_avatar p)) _ (read_avatar-IsSilent p)
            (λ a. IsMild→IsQuiet (lift (respond _)) (respond-IsMild _)))

  pub handle_set_avatar_attributes-IsQuiet :
      (r : ReqSetAvatarAttributes) → IsQuiet (handle_set_avatar_attributes env fuel r)
  unfolding handle_set_avatar_attributes
  handle_set_avatar_attributes-IsQuiet r =
      bind-IsQuiet (src_avatar env fuel r.avatar_id) _ (src_avatar-IsSilent env fuel _) (λ p.
        bind-IsQuiet (lift (respond _)) _ (respond-IsSilent _) (λ x.
          bind-IsQuiet (lift (read_avatar p)) _ (read_avatar-IsSilent p) (λ a.
            branch-IsQuiet (a.attributes == r.avatar_attributes) _ _
              (IsSilent→IsQuiet _ (lift-IsSilent (pure tt) (λ g. refl)))
              (IsSilent→IsQuiet _ (
                bind-IsSilent
                  (lift (
                    on_avatars
                      (change_avatar p (λ y. record y { attributes = r.avatar_attributes }))))
                  (λ _. lift (when (not (r.persistent == 0)) (on_avatars (update_row env p))))
                  (on_avatars-IsSilent
                    (change_avatar p (λ y. record y { attributes = r.avatar_attributes })))
                  (λ y. when-IsSilent (not (r.persistent == 0)) (update_row env p)))))))

pub handle_set_api_version-IsQuiet :
    (version : ℕ) (r : ReqSetApiVersion) → IsQuiet (handle_set_api_version version r)
unfolding handle_set_api_version
handle_set_api_version-IsQuiet version r = IsMild→IsQuiet (lift (respond _)) (respond-IsMild _)
