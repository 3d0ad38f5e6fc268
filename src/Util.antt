-- ===== src/Util.antt =====
-- util/ and owlconsts/: Call: how calls end; Hex: util/common.go; Address: util/address.go with the
-- constants of owlconsts/address.go; Checksum: what the checksum functions return; Token:
-- util/jwt.go; Page: util/page.go; Env: util/env.go and util/generate.go.
pub mod Call
pub mod Hex
pub mod Address
mod Checksum
pub mod Token
pub mod Page
pub mod Env
mod Tests
