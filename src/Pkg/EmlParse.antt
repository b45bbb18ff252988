-- ===== src/Pkg/EmlParse.antt =====
-- pkg/emlparse: from the bytes of a message to the payload that the service takes in.
-- What the packages net/mail, mime and encoding read out of the bytes is given as `Mime`.
pub mod Charset
pub mod Mime
pub mod Bounce
pub mod Parts
pub mod Message
pub mod Clean
