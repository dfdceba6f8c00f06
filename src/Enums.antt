-- ===== src/Enums.antt =====
-- The enumerations of src/stationchat/ChatEnums.hpp and src/stationchat/Message.hpp.
pub mod ResultCode
pub mod RequestType
pub mod ResponseType
pub mod MessageType
