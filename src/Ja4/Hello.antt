-- ===== src/Ja4/Hello.antt =====
-- internal/ja4/clienthello.go and grease.go: the fields that a fingerprint reads out of one TLS
-- handshake message. Loops that advance a cursor run on fuel; `out_of_fuel` stands for a loop that
-- has not ended.
pub mod Lists
pub mod Parse
pub mod Wire
pub mod Alpn
pub mod RoundTrip
pub mod Total
pub mod Payloads
