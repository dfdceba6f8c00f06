-- ===== src/Enums/ResponseType.antt =====
-- `ChatResponseType` of src/stationchat/ChatEnums.hpp and its wire values.
use stationapiv.Prelude.{ℕ}

-- `enum class ChatResponseType`
pub data ChatResponseType : Type 0 where
  loginavatar logoutavatar destroyavatar getavatar createroom destroyroom sendinstantmessage :
      ChatResponseType
  sendroommessage sendbroadcastmessage addfriend removefriend friendstatus addignore :
      ChatResponseType
  removeignore enterroom leaveroom addmoderator removemoderator addban removeban addinvite :
      ChatResponseType
  removeinvite kickavatar setroomparams getroom getroomsummaries sendpersistentmessage :
      ChatResponseType
  getpersistentheaders getpersistentmessage updatepersistentmessage unregisterroom :
      ChatResponseType
  ignorestatus failover_reloginavatar failover_recreateroom confirmfriend getavatarkeywords :
      ChatResponseType
  setavatarkeywords searchavatarkeywords getfanclubhandle updatepersistentmessages :
      ChatResponseType
  findavatarbyuid changeroomowner setapiversion addtemporarymoderator : ChatResponseType
  removetemporarymoderator grantvoice revokevoice setavatarattributes addsnoopavatar :
      ChatResponseType
  removesnoopavatar addsnooproom removesnooproom getsnooplist partialpersistentheaders :
      ChatResponseType
  countpersistentmessages purgepersistentmessages setfriendcomment transferavatar : ChatResponseType
  changepersistentfolder allowroomentry setavataremail setavatarinboxlimit : ChatResponseType
  sendmultiplepersistentmessages getmultiplepersistentmessages alterpersistentmessage :
      ChatResponseType
  getanyavatar temporaryavatar avatarlist setstatusmessage confirmfriend_reciprocate :
      ChatResponseType
  addfriend_reciprocate removefriend_reciprocate filtermessage filtermessage_ex : ChatResponseType
  registrar_getchatserver : ChatResponseType

-- The underlying value, `static_cast` in the source.
unfoldable pub response_code : ChatResponseType → ℕ
response_code loginavatar = 0
response_code logoutavatar = 1
response_code destroyavatar = 2
response_code getavatar = 3
response_code createroom = 4
response_code destroyroom = 5
response_code sendinstantmessage = 6
response_code sendroommessage = 7
response_code sendbroadcastmessage = 8
response_code addfriend = 9
response_code removefriend = 10
response_code friendstatus = 11
response_code addignore = 12
response_code removeignore = 13
response_code enterroom = 14
response_code leaveroom = 15
response_code addmoderator = 16
response_code removemoderator = 17
response_code addban = 18
response_code removeban = 19
response_code addinvite = 20
response_code removeinvite = 21
response_code kickavatar = 22
response_code setroomparams = 23
response_code getroom = 24
response_code getroomsummaries = 25
response_code sendpersistentmessage = 26
response_code getpersistentheaders = 27
response_code getpersistentmessage = 28
response_code updatepersistentmessage = 29
response_code unregisterroom = 30
response_code ignorestatus = 31
response_code failover_reloginavatar = 32
response_code failover_recreateroom = 33
response_code confirmfriend = 34
response_code getavatarkeywords = 35
response_code setavatarkeywords = 36
response_code searchavatarkeywords = 37
response_code getfanclubhandle = 38
response_code updatepersistentmessages = 39
response_code findavatarbyuid = 40
response_code changeroomowner = 41
response_code setapiversion = 42
response_code addtemporarymoderator = 43
response_code removetemporarymoderator = 44
response_code grantvoice = 45
response_code revokevoice = 46
response_code setavatarattributes = 47
response_code addsnoopavatar = 48
response_code removesnoopavatar = 49
response_code addsnooproom = 50
response_code removesnooproom = 51
response_code getsnooplist = 52
response_code partialpersistentheaders = 53
response_code countpersistentmessages = 54
response_code purgepersistentmessages = 55
response_code setfriendcomment = 56
response_code transferavatar = 57
response_code changepersistentfolder = 58
response_code allowroomentry = 59
response_code setavataremail = 60
response_code setavatarinboxlimit = 61
response_code sendmultiplepersistentmessages = 62
response_code getmultiplepersistentmessages = 63
response_code alterpersistentmessage = 64
response_code getanyavatar = 65
response_code temporaryavatar = 66
response_code avatarlist = 67
response_code setstatusmessage = 68
response_code confirmfriend_reciprocate = 69
response_code addfriend_reciprocate = 70
response_code removefriend_reciprocate = 71
response_code filtermessage = 72
response_code filtermessage_ex = 73
response_code registrar_getchatserver = 20001
