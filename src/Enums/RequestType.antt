-- ===== src/Enums/RequestType.antt =====
-- `ChatRequestType` of src/stationchat/ChatEnums.hpp and its wire values.
use stationapiv.Prelude.{ℕ}

-- `enum class ChatRequestType`
pub data ChatRequestType : Type 0 where
  loginavatar logoutavatar destroyavatar getavatar createroom destroyroom sendinstantmessage :
      ChatRequestType
  sendroommessage sendbroadcastmessage addfriend removefriend friendstatus addignore :
      ChatRequestType
  removeignore enterroom leaveroom addmoderator removemoderator addban removeban addinvite :
      ChatRequestType
  removeinvite kickavatar setroomparams getroom getroomsummaries sendpersistentmessage :
      ChatRequestType
  getpersistentheaders getpersistentmessage updatepersistentmessage unregisterroom : ChatRequestType
  ignorestatus failover_reloginavatar failover_recreateroom confirmfriend getavatarkeywords :
      ChatRequestType
  setavatarkeywords searchavatarkeywords getfanclubhandle updatepersistentmessages : ChatRequestType
  findavatarbyuid changeroomowner setapiversion addtemporarymoderator : ChatRequestType
  removetemporarymoderator grantvoice revokevoice setavatarattributes addsnoopavatar :
      ChatRequestType
  removesnoopavatar addsnooproom removesnooproom getsnooplist partialpersistentheaders :
      ChatRequestType
  countpersistentmessages purgepersistentmessages setfriendcomment transferavatar : ChatRequestType
  changepersistentfolder allowroomentry setavataremail setavatarinboxlimit : ChatRequestType
  sendmultiplepersistentmessages getmultiplepersistentmessages alterperistentmessage :
      ChatRequestType
  getanyavatar temporaryavatar avatarlist setavatarstatusmessage confirmfriend_reciprocate :
      ChatRequestType
  addfriend_reciprocate removefriend_reciprocate filtermessage filtermessage_ex : ChatRequestType
  registrar_getchatserver : ChatRequestType

-- The underlying value, `static_cast` in the source.
unfoldable pub request_code : ChatRequestType → ℕ
request_code loginavatar = 0
request_code logoutavatar = 1
request_code destroyavatar = 2
request_code getavatar = 3
request_code createroom = 4
request_code destroyroom = 5
request_code sendinstantmessage = 6
request_code sendroommessage = 7
request_code sendbroadcastmessage = 8
request_code addfriend = 9
request_code removefriend = 10
request_code friendstatus = 11
request_code addignore = 12
request_code removeignore = 13
request_code enterroom = 14
request_code leaveroom = 15
request_code addmoderator = 16
request_code removemoderator = 17
request_code addban = 18
request_code removeban = 19
request_code addinvite = 20
request_code removeinvite = 21
request_code kickavatar = 22
request_code setroomparams = 23
request_code getroom = 24
request_code getroomsummaries = 25
request_code sendpersistentmessage = 26
request_code getpersistentheaders = 27
request_code getpersistentmessage = 28
request_code updatepersistentmessage = 29
request_code unregisterroom = 30
request_code ignorestatus = 31
request_code failover_reloginavatar = 32
request_code failover_recreateroom = 33
request_code confirmfriend = 34
request_code getavatarkeywords = 35
request_code setavatarkeywords = 36
request_code searchavatarkeywords = 37
request_code getfanclubhandle = 38
request_code updatepersistentmessages = 39
request_code findavatarbyuid = 40
request_code changeroomowner = 41
request_code setapiversion = 42
request_code addtemporarymoderator = 43
request_code removetemporarymoderator = 44
request_code grantvoice = 45
request_code revokevoice = 46
request_code setavatarattributes = 47
request_code addsnoopavatar = 48
request_code removesnoopavatar = 49
request_code addsnooproom = 50
request_code removesnooproom = 51
request_code getsnooplist = 52
request_code partialpersistentheaders = 53
request_code countpersistentmessages = 54
request_code purgepersistentmessages = 55
request_code setfriendcomment = 56
request_code transferavatar = 57
request_code changepersistentfolder = 58
request_code allowroomentry = 59
request_code setavataremail = 60
request_code setavatarinboxlimit = 61
request_code sendmultiplepersistentmessages = 62
request_code getmultiplepersistentmessages = 63
request_code alterperistentmessage = 64
request_code getanyavatar = 65
request_code temporaryavatar = 66
request_code avatarlist = 67
request_code setavatarstatusmessage = 68
request_code confirmfriend_reciprocate = 69
request_code addfriend_reciprocate = 70
request_code removefriend_reciprocate = 71
request_code filtermessage = 72
request_code filtermessage_ex = 73
request_code registrar_getchatserver = 20001
