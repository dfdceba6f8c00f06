-- ===== src/Messages.antt =====
-- src/stationchat/PersistentMessage.hpp and src/stationchat/PersistentMessageService.cpp: the mail
-- of the avatars in the database.
pub mod Service
pub mod Mailbox
mod Examples
use stationapiv.Prelude.{ℕ, List, Text}

pub data PersistentState : Type 0 where
  new unread read trash deleted : PersistentState

unfoldable pub state_code : PersistentState → ℕ
state_code new = 1
state_code unread = 2
state_code read = 3
state_code trash = 4
state_code deleted = 5

-- The status is a number, since a column may hold one that no enumerator names.
pub record PersistentHeader : Type 0 where
  pub message_id : ℕ
  pub avatar_id : ℕ
  pub from_name : Text
  pub from_address : Text
  pub subject : Text
  pub sent_time : ℕ
  pub status : ℕ
  pub folder : Text
  pub category : Text

pub record PersistentMessage : Type 0 where
  pub header : PersistentHeader
  pub message : Text
  pub oob : Text
