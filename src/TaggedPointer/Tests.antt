-- ===== src/TaggedPointer/Tests.antt =====
-- seq/tagged_pointer.hpp: words with three bits for the tag.
use seq.Prelude.{refl, arith}
use seq.TaggedPointer.{from_pointer, from_tagged, set_ptr, set_tag, set, full, set_full}
use seq.TaggedPointer.Words.{Aligned, Tagged, Tagged-set}

forty-Aligned : Aligned 3 40
forty-Aligned = record { quotient = 5; multiple = refl; room = omega arith }

eight-Aligned : Aligned 3 8
eight-Aligned = record { quotient = 1; multiple = refl; room = omega arith }

word-Tagged : Tagged 3 46 40 6
word-Tagged = record { aligned = forty-Aligned; small = omega arith; sum = refl }

Tagged-set_example :
    Tagged 3 (from_pointer 8) 8 0
    × Tagged 3 (from_tagged 3 8 13) 8 5
    × Tagged 3 (set 3 8 13 46) 8 5
    × Tagged 3 (set_ptr 3 8 46) 8 6
    × Tagged 3 (set_tag 3 5 46) 40 5
    × Tagged 3 (set_full (full 46) (from_pointer 8)) 40 6
Tagged-set_example = Tagged-set 3 (omega arith) 46 40 6 8 13 word-Tagged eight-Aligned
