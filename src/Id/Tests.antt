-- ===== src/Id/Tests.antt =====
use licensing.Common.{◌≡◌, refl}
use licensing.Id.Iso.{iso_from_ms}
use licensing.Id.Uuid.{uuid_v7_text}

iso_sample : iso_from_ms 1776074400123 ≡ "2026-04-13T10:00:00.123000Z"
unfolding iso_from_ms
iso_sample = refl

iso_epoch : iso_from_ms 0 ≡ "1970-01-01T00:00:00.000000Z"
unfolding iso_from_ms
iso_epoch = refl

iso_leap : iso_from_ms 951782400000 ≡ "2000-02-29T00:00:00.000000Z"
unfolding iso_from_ms
iso_leap = refl

uuid_sample : uuid_v7_text 0x0123456789ab (λ i. 255) ≡ "01234567-89ab-7fff-bfff-ffffffffffff"
unfolding uuid_v7_text
uuid_sample = refl
