-- ===== src/Codec.antt =====
-- Text encodings: core/crypto/base64, core/strings.hpp, core/http/url.
pub mod Base64
pub mod Hex
pub mod Url
