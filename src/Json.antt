-- ===== src/Json.antt =====
-- The values of encoding/json, and its `Unmarshal` into a struct, as the functions EAFromJSON,
-- PSOFromJSON, GPFromJSON, MLFromJSON, ShareRunReqFromJSON and RunDataReqFromJSON use it: the map of
-- the request is marshalled, and the text is unmarshalled into the struct. The text in between is
-- left out: what `Marshal` writes is read back as the same values, with the keys in order.
pub mod Value
pub mod Keys
pub mod Reader
pub mod Struct
pub mod Reads
pub mod Order
pub mod Keeps
pub mod Errors
