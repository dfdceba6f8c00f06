-- ===== src/Enums/MessageType.antt =====
-- `ChatMessageType` of src/stationchat/Message.hpp and its wire values.
use stationapiv.Prelude.{ℕ}

-- `enum class ChatMessageType`
pub data ChatMessageType : Type 0 where
  instantmessage roommessage broadcastmessage friendlogin friendlogout kickroom : ChatMessageType
  addmoderatorroom removemoderatorroom removemoderatoravatar addbanroom removebanroom :
      ChatMessageType
  removebanavatar addinviteroom addinviteavatar removeinviteroom removeinviteavatar :
      ChatMessageType
  enterroom leaveroom destroyroom setroomparams persistentmessage forcedlogout : ChatMessageType
  unregisterroomready kickavatar addmoderatoravatar addbanavatar addadmin removeadmin :
      ChatMessageType
  friendconfirmrequest friendconfirmresponse changeroomowner forceroomfailover : ChatMessageType
  addtemporarymoderatorroom addtemporarymoderatoravatar removetemporarymoderatorroom :
      ChatMessageType
  removetemporarymoderatoravatar grantvoiceroom grantvoiceavatar revokevoiceroom : ChatMessageType
  revokevoiceavatar snoop uidlist requestroomentry delayedroomentry deniedroomentry :
      ChatMessageType
  friendstatus friendconfirmreciprocate_request friendconfirmreciprocate_response : ChatMessageType
  filtermessage failover_avatar_list notify_friends_list_change notify_friend_is_removed :
      ChatMessageType

-- The underlying value, `static_cast` in the source.
unfoldable pub message_code : ChatMessageType → ℕ
message_code instantmessage = 0
message_code roommessage = 1
message_code broadcastmessage = 2
message_code friendlogin = 3
message_code friendlogout = 4
message_code kickroom = 5
message_code addmoderatorroom = 6
message_code removemoderatorroom = 7
message_code removemoderatoravatar = 8
message_code addbanroom = 9
message_code removebanroom = 10
message_code removebanavatar = 11
message_code addinviteroom = 12
message_code addinviteavatar = 13
message_code removeinviteroom = 14
message_code removeinviteavatar = 15
message_code enterroom = 16
message_code leaveroom = 17
message_code destroyroom = 18
message_code setroomparams = 19
message_code persistentmessage = 20
message_code forcedlogout = 21
message_code unregisterroomready = 22
message_code kickavatar = 23
message_code addmoderatoravatar = 24
message_code addbanavatar = 25
message_code addadmin = 26
message_code removeadmin = 27
message_code friendconfirmrequest = 28
message_code friendconfirmresponse = 29
message_code changeroomowner = 30
message_code forceroomfailover = 31
message_code addtemporarymoderatorroom = 32
message_code addtemporarymoderatoravatar = 33
message_code removetemporarymoderatorroom = 34
message_code removetemporarymoderatoravatar = 35
message_code grantvoiceroom = 36
message_code grantvoiceavatar = 37
message_code revokevoiceroom = 38
message_code revokevoiceavatar = 39
message_code snoop = 40
message_code uidlist = 41
message_code requestroomentry = 42
message_code delayedroomentry = 43
message_code deniedroomentry = 44
message_code friendstatus = 45
message_code friendconfirmreciprocate_request = 46
message_code friendconfirmreciprocate_response = 47
message_code filtermessage = 48
message_code failover_avatar_list = 49
message_code notify_friends_list_change = 50
message_code notify_friend_is_removed = 51
