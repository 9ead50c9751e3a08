-- ===== src/Types.antt =====
-- src/types: identities, resources and requests.
pub mod Identity
pub mod Attr
pub mod Resource
pub mod CedarType
pub mod Scan
pub mod Quoted
pub mod Parse
pub mod Valid
pub mod RoundTrip
pub mod GroupText
pub mod UserText
pub mod Users
