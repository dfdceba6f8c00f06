-- ===== src/Protocol/Requests.antt =====
-- The requests of src/stationchat/protocol, in five groups, with their names passed on.
mod Avatars
mod Contacts
mod Rooms
mod Rights
mod Messages
unfoldable pub use Avatars.*
unfoldable pub use Contacts.*
unfoldable pub use Rooms.*
unfoldable pub use Rights.*
unfoldable pub use Messages.*
