-- ===== src/Devlist.antt =====
-- main/devlist_page.h: the order of device.list pages and the encoding of a row.
-- A pool is a list of slots; `ieee_of` and `live` are functions of the slot, as in the template.
pub mod Next
pub mod Escape
pub mod Page
