-- ===== src/Enums/ResultCode.antt =====
-- `ChatResultCode` of src/stationchat/ChatEnums.hpp and its wire values.
use stationapiv.Prelude.{ℕ}

-- `enum class ChatResultCode`
pub data ChatResultCode : Type 0 where
  success timeout duplicatelogin srcavatardoesntexist destavatardoesntexist : ChatResultCode
  addressdoesntexist addressnotroom addressnotaid friendnotfound room_unknownfailure :
      ChatResultCode
  room_srcnotinroom room_destnotinroom room_bannedavatar room_privateroom room_moderatedroom :
      ChatResultCode
  room_notinroom room_noprivileges database cannotgetavatarid cannotgetnodeid : ChatResultCode
  cannotgetpmsgid pmsgnotfound roommaxavatarsreached ignoring room_alreadyexists : ChatResultCode
  nothingtoconfirm duplicatefriend ignorenotfound duplicateignore dbfail : ChatResultCode
  room_destavatarnotmoderator room_destavatarnotinvited room_destavatarnotbanned : ChatResultCode
  room_duplicateban room_duplicatemoderator room_duplicateinvite room_alreadyinroom : ChatResultCode
  room_parentnonpersistent room_parentbadnodetype nofanclubhandle aidalreadyexists : ChatResultCode
  uidalreadyexists wrongchatserverforrequest successbaddata nullnamelogin : ChatResultCode
  server_identity_empty server_identity_taken remoteserverdown nodeidconflict : ChatResultCode
  invalidnodename insufficientgmprivs snoopalreadyadded notsnooping : ChatResultCode
  room_destavatarnottemporarymoderator room_destavatarnotvoice : ChatResultCode
  room_duplicatetemporarymoderator room_duplicatevoice avatarmustbeloggedout nothingtodo :
      ChatResultCode
  transfernamenull transferuseridzero transferaddressnull outofids room_localroom : ChatResultCode
  room_gameroom room_destavatarnotentering insufficientpriority room_waitingforentry :
      ChatResultCode
  inboxlimitexceeded duplicatedestination categorylimitexceeded message_filter_failure :
      ChatResultCode
  invalid_input : ChatResultCode

-- The underlying value, `static_cast` in the source.
unfoldable pub result_code : ChatResultCode → ℕ
result_code success = 0
result_code timeout = 1
result_code duplicatelogin = 2
result_code srcavatardoesntexist = 3
result_code destavatardoesntexist = 4
result_code addressdoesntexist = 5
result_code addressnotroom = 6
result_code addressnotaid = 7
result_code friendnotfound = 8
result_code room_unknownfailure = 9
result_code room_srcnotinroom = 10
result_code room_destnotinroom = 11
result_code room_bannedavatar = 12
result_code room_privateroom = 13
result_code room_moderatedroom = 14
result_code room_notinroom = 15
result_code room_noprivileges = 16
result_code database = 17
result_code cannotgetavatarid = 18
result_code cannotgetnodeid = 19
result_code cannotgetpmsgid = 20
result_code pmsgnotfound = 21
result_code roommaxavatarsreached = 22
result_code ignoring = 23
result_code room_alreadyexists = 24
result_code nothingtoconfirm = 25
result_code duplicatefriend = 26
result_code ignorenotfound = 27
result_code duplicateignore = 28
result_code dbfail = 29
result_code room_destavatarnotmoderator = 30
result_code room_destavatarnotinvited = 31
result_code room_destavatarnotbanned = 32
result_code room_duplicateban = 33
result_code room_duplicatemoderator = 34
result_code room_duplicateinvite = 35
result_code room_alreadyinroom = 36
result_code room_parentnonpersistent = 37
result_code room_parentbadnodetype = 38
result_code nofanclubhandle = 39
result_code aidalreadyexists = 40
result_code uidalreadyexists = 41
result_code wrongchatserverforrequest = 42
result_code successbaddata = 43
result_code nullnamelogin = 44
result_code server_identity_empty = 45
result_code server_identity_taken = 46
result_code remoteserverdown = 47
result_code nodeidconflict = 48
result_code invalidnodename = 49
result_code insufficientgmprivs = 50
result_code snoopalreadyadded = 51
result_code notsnooping = 52
result_code room_destavatarnottemporarymoderator = 53
result_code room_destavatarnotvoice = 54
result_code room_duplicatetemporarymoderator = 55
result_code room_duplicatevoice = 56
result_code avatarmustbeloggedout = 57
result_code nothingtodo = 58
result_code transfernamenull = 59
result_code transferuseridzero = 60
result_code transferaddressnull = 61
result_code outofids = 62
result_code room_localroom = 63
result_code room_gameroom = 64
result_code room_destavatarnotentering = 65
result_code insufficientpriority = 66
result_code room_waitingforentry = 67
result_code inboxlimitexceeded = 68
result_code duplicatedestination = 69
result_code categorylimitexceeded = 70
result_code message_filter_failure = 71
result_code invalid_input = 72
