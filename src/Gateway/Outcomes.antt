-- ===== src/Gateway/Outcomes.antt =====
-- What single handlers of src/stationchat/protocol/Protocol.cpp come to.
use stationapiv.Prelude.{
  any, text_eq, ◌++◌, if◌then◌else◌, ℕ, suc, ◌≡◌, refl, true, [], ◌∷◌, some, Text, if◌then◌else◌,
  Bool-cases, inl, inr,
}
use stationapiv.Enums.ResultCode.{ignoring}
use stationapiv.Exec.{ok, raised, chat_result}
use stationapiv.Exec.Fuel.{resume}
use stationapiv.Storage.{Env}
use stationapiv.Avatar.{Ptr, ChatAvatar}
use stationapiv.Avatar.Contacts.{is_ignored}
use stationapiv.AvatarService.{by_id, by_name, Key, get_cached_avatar, avatar_at}
use stationapiv.AvatarService.Again.{get_avatar_cached}
use stationapiv.Protocol.Requests.{ReqSendInstantMessage}
use stationapiv.Gateway.{
  client_of, m_instant_message, GatewayState, avatars_of, look_up, read_avatar, id_at,
  contacts_alive,
}
use stationapiv.Gateway.Outbox.{send_to, send_instant_message_update}
use stationapiv.Gateway.Handlers.{found_or, src_avatar, dest_avatar}
use stationapiv.Gateway.Handlers.Contacts.{ignores, handle_send_instant_message}

module _ (env : Env) (n : ℕ) (g : GatewayState) where
  pub look_up_cached :
      (k : Key) (p : Ptr)
      → get_cached_avatar k g.avatar_cache ≡ some p
      → look_up env (suc n) k g ≡ some (ok (some p), g)
  look_up_cached k p e = rw (get_avatar_cached env n k p (avatars_of g) e, look_up) refl

  pub src_avatar_cached :
      (id : ℕ) (p : Ptr)
      → get_cached_avatar (by_id id) g.avatar_cache ≡ some p
      → src_avatar env (suc n) id g ≡ some (ok p, g)
  unfolding src_avatar resume found_or
  src_avatar_cached id p e = rw (look_up_cached (by_id id) p e) refl

  dest_avatar_cached :
      (name address : Text) (q : Ptr)
      → get_cached_avatar (by_name name address) g.avatar_cache ≡ some q
      → dest_avatar env (suc n) name address g ≡ some (ok q, g)
  unfolding dest_avatar resume found_or
  dest_avatar_cached name address q e = rw (look_up_cached (by_name name address) q e) refl

  -- Between two avatars of the cache, with the contacts of the recipient alive, a private
  -- message is refused with IGNORING where its recipient ignores the sender, and nothing is
  -- sent. Else the handler succeeds, and one message with the text and the out-of-band text of
  -- the request goes to the address of the recipient if a client has registered it, and nothing
  -- is sent if none has.
  pub handle_send_instant_message_outcome :
      (r : ReqSendInstantMessage) (p q : Ptr) (a b : ChatAvatar)
      → get_cached_avatar (by_id r.src_avatar_id) g.avatar_cache ≡ some p
      → get_cached_avatar (by_name r.dest_name r.dest_address) g.avatar_cache ≡ some q
      → avatar_at g.avatar_cache p ≡ some a
      → avatar_at g.avatar_cache q ≡ some b
      → contacts_alive g.avatar_cache b ≡ true
      → handle_send_instant_message env (suc n) r g
        ≡ some (
            if is_ignored (id_at g.avatar_cache) b a.avatar_id
            then (raised (chat_result ignoring), g)
            else (
              ok tt,
              if any (λ known. text_eq known b.address) g.client_addresses
                  then record g {
                    outbox =
                        g.outbox
                        ++ (client_of b.address, m_instant_message a b.avatar_id r.message r.oob)
                          ∷ [];
                  }
                  else g,
            ))
  unfolding handle_send_instant_message resume send_instant_message_update send_to read_avatar
      ignores id_at
  handle_send_instant_message_outcome r p q a b hp hq ha hb alive =
      let id : id_at g.avatar_cache p ≡ a.avatar_id = rw (ha, id_at) refl in
      let src = src_avatar_cached r.src_avatar_id p hp in
      let dest = dest_avatar_cached r.dest_name r.dest_address q hq in
      let answer : ignores q p g ≡ (ok (is_ignored (id_at g.avatar_cache) b a.avatar_id), g) =
        rw (hb, alive, id, ignores) refl in
      elim (Bool-cases (is_ignored (id_at g.avatar_cache) b a.avatar_id)) [
        | inl e ↦ rw (src, dest, answer, e) refl
        | inr e ↦ rw (src, dest, answer, e, ha, hb) refl
      ]
