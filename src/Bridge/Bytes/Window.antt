-- ===== src/Bridge/Bytes/Window.antt =====
-- The memory that a bytes callback is given.
use quickjs_runtime.Prelude.{
  ℕ, ◌+◌, ◌≤◌, ◌≡◌, refl, false, ◌↔◌, Option, none, some, List, ◌∷◌, inl, inr, arith, Bool-cases,
}
use quickjs_runtime.Prelude.Int.{ℤ}
use quickjs_runtime.Bridge.Engine.{Engine, Text}
use quickjs_runtime.Bridge.Table.{Table, callback_at}
use quickjs_runtime.Bridge.Bytes.{
  BytesHostCallback, out_of_bounds, call_bytes, with_buffer, with_view, with_args,
  qjs_bytes_dispatch,
}

-- The two tests accept exactly the windows that lie in the buffer, whatever the sizes.
pub out_of_bounds_iff :
    (offset length absize : ℕ)
    → (out_of_bounds offset length absize ≡ false) ↔ (offset + length ≤ absize)
unfolding out_of_bounds
out_of_bounds_iff offset length absize = ground arith

module _ (e : Engine) where
  open e use {State, Value}

  -- A window that lies in the memory which the engine reports for a view, at the view's place.
  pub record InBuffer (view : Value) (s : State) (address length : ℕ) : Type 0 where
    pub ptr : ℕ
    pub absize : ℕ
    pub reported :
        (e.get_array_buffer
          (e.get_typed_array_buffer view s).0.0
          (e.get_typed_array_buffer view s).1).0
        ≡ some (ptr, absize)
    pub at_view : address ≡ ptr + (e.get_typed_array_buffer view s).0.1
    pub of_view : length ≡ (e.get_typed_array_buffer view s).0.2
    pub above : ptr ≤ address
    pub below : address + length ≤ ptr + absize

  -- Two callbacks that do the same on every such window, whatever they do elsewhere.
  abbrev pub AgreeInside : BytesHostCallback e → BytesHostCallback e → Value → State → Type 0
  AgreeInside f g view s =
      (name : Text) (address length : ℕ) (s' : State)
      → InBuffer view s address length
      → f name address length s' ≡ g name address length s'

  module _ (f g : BytesHostCallback e) where
    call_bytes-eq :
        (o : Option Text) (address length : ℕ) (s : State)
        → ((name : Text) (s' : State) → f name address length s' ≡ g name address length s')
        → call_bytes e f o address length s ≡ call_bytes e g o address length s
    unfolding call_bytes
    call_bytes-eq none address length s h = refl
    call_bytes-eq (some name) address length s h = rw (h name s)

    with_buffer-eq :
        (name_arg : Value) (offset length : ℕ) (o : Option (ℕ × ℕ)) (s : State)
        → ((ptr absize : ℕ) (name : Text) (s' : State)
            → o ≡ some (ptr, absize)
            → offset + length ≤ absize
            → f name (ptr + offset) length s' ≡ g name (ptr + offset) length s')
        → with_buffer e f name_arg offset length o s ≡ with_buffer e g name_arg offset length o s
    unfolding with_buffer
    with_buffer-eq name_arg offset length none s h = refl
    with_buffer-eq name_arg offset length (some (ptr, absize)) s h =
        elim (Bool-cases (out_of_bounds offset length absize)) [
          | inl out ↦ rw out
          | inr fits ↦ rw fits (
              call_bytes-eq _ (ptr + offset) length _
                (λ name s'. h ptr absize name s' refl ((out_of_bounds_iff _ _ _).0 fits)))
        ]

    with_view-eq :
        (name_arg view : Value) (s : State)
        → AgreeInside f g view s
        → with_view e f name_arg view s ≡ with_view e g name_arg view s
    unfolding with_view
    with_view-eq name_arg view s h =
        let t = e.get_typed_array_buffer view s in
        elim (Bool-cases (e.is_exception t.0.0)) [
          | inl bad ↦ rw bad
          | inr good ↦ rw good (
              with_buffer-eq name_arg t.0.1 t.0.2 _ _ (λ ptr absize name s' found fits.
                h name (ptr + t.0.1) t.0.2 s' (record {
                  ptr = ptr;
                  absize = absize;
                  reported = found;
                  at_view = refl;
                  of_view = refl;
                  above = omega arith;
                  below = omega arith;
                })))
        ]

    -- A bytes callback is only ever run on a window that lies in the buffer of its view: what it
    -- would do on any other address or length makes no difference to a dispatch.
    pub qjs_bytes_dispatch-inside :
        (table table' : Table (BytesHostCallback e)) (magic : ℤ) (name_arg view : Value)
        (more : List Value) (s : State)
        → callback_at table magic ≡ some f
        → callback_at table' magic ≡ some g
        → AgreeInside f g view s
        → qjs_bytes_dispatch e table (name_arg ∷ view ∷ more) magic s
          ≡ qjs_bytes_dispatch e table' (name_arg ∷ view ∷ more) magic s
    unfolding qjs_bytes_dispatch with_args
    qjs_bytes_dispatch-inside table table' magic name_arg view more s p q h =
        rw (p, q, qjs_bytes_dispatch)
          (elim (Bool-cases (e.is_string name_arg)) [
            | inl text ↦ rw text (with_view-eq name_arg view s h)
            | inr other ↦ rw other
          ])
