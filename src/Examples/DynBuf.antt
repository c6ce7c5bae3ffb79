-- ===== src/Examples/DynBuf.antt =====
-- Growing buffers at concrete inputs.
use quickjs_runtime.Prelude.{ℕ, Bool, false, ltb, ◌≡◌, refl, [], ◌∷◌, replicate, arith}
use quickjs_runtime.Cutils.DynBuf.{
  DynBuf, returns, printed, refused, store_refused, store_bytes, dbuf_realloc, dbuf_put,
  dbuf_printf,
}
use quickjs_runtime.Cutils.DynBuf.Memory.{copy_into}
use quickjs_runtime.Cutils.DynBuf.Growth.{IsValid}
use quickjs_runtime.Cutils.DynBuf.Laws.{IsAppended, dbuf_put-IsAppended, dbuf_printf-IsAppended}
use quickjs_runtime.Engine.Leb128.{dbuf_put_leb128}
use quickjs_runtime.Engine.Leb128.RoundTrip.{groups}
use quickjs_runtime.Engine.Leb128.Writer.{dbuf_put_leb128-IsWritten}
use quickjs_runtime.Cutils.DynBuf.Writes.{IsWritten}

abbrev five : DynBuf
five = record { buf = 1 ∷ 2 ∷ 3 ∷ 9 ∷ 9 ∷ []; size = 3; allocated_size = 5; error = false }

five-IsValid : IsValid five
five-IsValid = record { whole = refl; within = omega arith; small = omega arith }

-- An allocator with no blocks over 64 bytes.
abbrev below_64 : ℕ → Bool
below_64 n = ltb n 64

dbuf_put-IsAppended_example :
    IsAppended five (4 ∷ 5 ∷ 6 ∷ []) (dbuf_put below_64 0 five (4 ∷ 5 ∷ 6 ∷ []))
dbuf_put-IsAppended_example =
    dbuf_put-IsAppended below_64 0 five (4 ∷ 5 ∷ 6 ∷ []) five-IsValid (omega arith)

dbuf_printf-IsAppended_example :
    IsAppended five (replicate 200 65) (dbuf_printf below_64 0 five (printed (replicate 200 65)))
dbuf_printf-IsAppended_example =
    dbuf_printf-IsAppended below_64 0 five (replicate 200 65) five-IsValid (omega arith)

-- A result of -1 from vsnprintf is taken for a long text: the call succeeds and the buffer is
-- shorter by a byte.
printf_refused :
    dbuf_printf below_64 0 five (refused 0 []) ≡ returns (record five { size = 2 }) false
unfolding dbuf_printf store_refused store_bytes dbuf_realloc copy_into
printf_refused = refl

dbuf_put_leb128-IsWritten_example :
    IsWritten five (groups 5 300) (dbuf_put_leb128 (λ i. below_64) 0 five 300)
dbuf_put_leb128-IsWritten_example =
    dbuf_put_leb128-IsWritten (λ i. below_64) 0 five 300 five-IsValid (omega arith) (omega arith)
