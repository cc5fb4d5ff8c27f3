-- ===== src/Xdr.antt =====
-- The XDR library of libsrc: the stream interface of include/rpc/xdr.h, and below it the memory
-- stream and the filters.
pub mod Stream
pub mod Mem
pub mod Codec
pub mod Scalar
pub mod Opaque
pub mod CString
pub mod Union
pub mod Array
pub mod Reference
pub mod Kept
pub mod Memory
pub mod Sizeof
pub mod Rec
pub mod RecIn
pub mod RecStream
pub mod RoundTrip
