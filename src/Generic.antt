-- ===== src/Generic.antt =====
-- The ports in kunit/xfstests/generic that compute something of their own.
pub mod Steps
pub mod Pattern
pub mod Mapped
pub mod G001
pub mod G006
pub mod G708
pub mod G406
pub mod G109
pub mod G130
pub mod G141
pub mod G086
pub mod G007
pub mod G023
pub mod G029
pub mod G030
pub mod G075
pub mod G100
pub mod G214
pub mod G286
pub mod G310
pub mod G313
pub mod G337
pub mod G339
pub mod G377
pub mod G430
pub mod G436
pub mod G478
