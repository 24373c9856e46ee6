-- ===== src/Value/Examples.antt =====
-- The operations on machine words at concrete values.
use sound_bit_precise_domain.Prelude.{◌≡◌, arith, err, uninitialised}
use sound_bit_precise_domain.Value.{Value, sixteen, eight, make, IsAt, make-IsAt_fits}
use sound_bit_precise_domain.Value.Signed.{sdiv, smod, eight_bit_signed_uninitialised}

abbrev low : Value
low = make eight 200

abbrev high : Value
high = make eight 251

low-IsAt : IsAt eight low 200
low-IsAt = make-IsAt_fits eight 200 (omega arith)

high-IsAt : IsAt eight high 251
high-IsAt = make-IsAt_fits eight 251 (omega arith)

wide-IsAt : IsAt sixteen (make sixteen 65535) 65535
wide-IsAt = make-IsAt_fits sixteen 65535 (omega arith)

eight_bit_signed_uninitialised_example :
    (sdiv low high ≡ err uninitialised) × (smod low high ≡ err uninitialised)
eight_bit_signed_uninitialised_example = eight_bit_signed_uninitialised 200 251
