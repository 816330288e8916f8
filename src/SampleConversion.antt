-- ===== src/SampleConversion.antt =====
-- src/sample_conversion.h: samples between the codec's formats and `float`, the loops that
-- deinterleave and interleave a channel, and the choice of a converter.
pub mod Codec
pub mod Formats
pub mod Scaling
pub mod Passthrough
pub mod Rounding
pub mod Converter
pub mod Select
pub mod Tests
