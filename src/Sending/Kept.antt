-- ===== src/Sending/Kept.antt =====
-- Editing the headers that are shown loses none of the request's own.
use purr.Common.{
  ℕ, ◌≡◌, ◌≢◌, refl, sym, ap, ◌∙◌, Bool, true, false, ◌&&◌, ◌||◌, not, Option, none, some, List, [],
  ◌∷◌, ◌++◌, arith, String, Text, codes, text_eq, text_eq_refl, eq_of_text_eq, trim, any, keep,
  Bool-cases, inl, inr, ◌⊎◌, if◌then◌else◌,
}
use purr.Request.{RequestDraft, Header, Placement, header, query, cookie}
use purr.Authentication.{AuthContext}
use purr.Authentication.Binding.{Platform, AuthBinding}
use purr.Sending.{
  lower_name, trimmed_name, with_content_type, content_type_header, with_binding, placed,
  is_managed, get_request_headers, update_request_headers, binding_of, content_type_of,
}

-- A header of a list.
abbrev pub Holds : Header → List Header → Type 0
Holds h [] = false ≡ true
Holds h (g ∷ gs) = (h ≡ g) ⊎ Holds h gs

Holds-keep :
    (p : Header → Bool) (h : Header) (gs : List Header)
    → p h ≡ true
    → Holds h gs
    → Holds h (keep p gs)
Holds-keep p h [] t m = m
Holds-keep p h (g ∷ gs) t (inl same) = rw (← same, t) (inl refl)
Holds-keep p h (g ∷ gs) t (inr m) = elim (Bool-cases (p g)) [
  | inl there ↦ rw there (inr (Holds-keep p h gs t m))
  | inr gone ↦ rw gone (Holds-keep p h gs t m)
]

Holds-append_left : (h : Header) (gs hs : List Header) → Holds h gs → Holds h (gs ++ hs)
Holds-append_left h [] hs m = absurd (cc)
Holds-append_left h (g ∷ gs) hs (inl same) = inl same
Holds-append_left h (g ∷ gs) hs (inr m) = inr (Holds-append_left h gs hs m)

Holds-append_right : (h : Header) (gs hs : List Header) → Holds h hs → Holds h (gs ++ hs)
Holds-append_right h [] hs m = m
Holds-append_right h (g ∷ gs) hs m = inr (Holds-append_right h gs hs m)

module _ (to_lower : Text → Text) (trace_id : ℕ → String) where
  is_managed-append :
      (gs hs : List Header) (name : Text)
      → is_managed to_lower trace_id gs name ≡ true
      → is_managed to_lower trace_id (gs ++ hs) name ≡ true
  unfolding is_managed
  is_managed-append [] hs name m = absurd (cc)
  is_managed-append (g ∷ gs) hs name m = ground (arith, m, is_managed-append gs hs name)

  module _ (content_type_lower : to_lower (codes "Content-Type") ≡ codes "content-type")
      (cookie_lower : to_lower (codes "Cookie") ≡ codes "cookie") where
    -- A managed header that a filter drops has the name of the one in front.
    kept_or_named :
        (k n : Text) (gs hs : List Header) (c : Header)
        → (Header.read_only c && text_eq (lower_name to_lower trace_id c) k) ≡ true
        → (text_eq n k
            || any
                (λ h. Header.read_only h && text_eq (lower_name to_lower trace_id h) k)
                (if not (text_eq k n) then c ∷ gs else hs))
          ≡ true
    kept_or_named k n gs hs c t = ground (arith, t, text_eq_refl k, eq_of_text_eq k n)

    -- The header of the content type is managed wherever the binding goes.
    content_type-managed :
        (b : Option AuthBinding) (value : Text) (rest : List Header)
        → is_managed to_lower trace_id
            (with_binding to_lower trace_id b (content_type_header to_lower trace_id value ∷ rest))
            (codes "content-type")
          ≡ true
    unfolding is_managed with_binding
    content_type-managed none value rest =
        ground (arith, content_type_lower, text_eq_refl (codes "content-type"))
    content_type-managed (some b) value rest = on b.target
      where
        on :
            (t : Placement)
            → any
                (λ h.
                  Header.read_only h
                  && text_eq (lower_name to_lower trace_id h) (codes "content-type"))
                (placed to_lower trace_id t b (content_type_header to_lower trace_id value ∷ rest))
              ≡ true
        on header = rw content_type_lower (
            kept_or_named (codes "content-type") (to_lower b.name) _ _
              (content_type_header to_lower trace_id value) (rw content_type_lower refl))
        on cookie = rw content_type_lower (ground arith)
        on query = ground (arith, content_type_lower)

    module _ (h : Header) (own : Header.read_only h ≡ false) (plain : trim h.name ≡ h.name) where
      -- Either its name is managed or it is shown.
      Holds-with_content_type :
          (value : Option Text) (hs : List Header) (b : Option AuthBinding)
          → Holds h hs
          → is_managed to_lower trace_id
              (with_binding to_lower trace_id b (with_content_type to_lower trace_id value hs))
              (lower_name to_lower trace_id h)
            ≡ false
          → Holds h (with_content_type to_lower trace_id value hs)
      unfolding with_content_type
      Holds-with_content_type none hs b m n = m
      Holds-with_content_type (some value) hs b m n = inr (
          Holds-keep _ h hs
            (elim (Bool-cases (text_eq (trimmed_name to_lower trace_id h) (codes "content-type"))) [
              | inl named ↦ absurd (
                  managed_name (
                    ap to_lower (sym plain)
                    ∙ eq_of_text_eq (trimmed_name to_lower trace_id h) (codes "content-type")
                        named))
              | inr other ↦ rw other refl
            ])
            m)
        where
          managed_name : lower_name to_lower trace_id h ≢ codes "content-type"
          managed_name = λ e. ground (
            arith,
            n,
            e,
            content_type-managed b value (
                keep (λ g. not (text_eq (trimmed_name to_lower trace_id g) (codes "content-type")))
                  hs),
          )

      Holds-with_binding :
          (b : Option AuthBinding) (hs : List Header)
          → Holds h hs
          → is_managed to_lower trace_id
              (with_binding to_lower trace_id b hs)
              (lower_name to_lower trace_id h)
            ≡ false
          → Holds h (with_binding to_lower trace_id b hs)
      unfolding with_binding is_managed
      Holds-with_binding none hs m n = m
      Holds-with_binding (some b) hs m n = on b.target n
        where
          on :
              (t : Placement)
              → is_managed to_lower trace_id
                  (placed to_lower trace_id t b hs)
                  (lower_name to_lower trace_id h)
                ≡ false
              → Holds h (placed to_lower trace_id t b hs)
          on header n = inr (
              Holds-keep _ h hs
                (rw plain (
                  ground (
                    arith,
                    n,
                    eq_of_text_eq (to_lower h.name) (to_lower b.name),
                    text_eq_refl (to_lower b.name),
                  )))
                m)
          on cookie n = inr (
              Holds-keep _ h hs
                (ground (
                  arith,
                  n,
                  cookie_lower,
                  eq_of_text_eq (to_lower h.name) (codes "cookie"),
                  text_eq_refl (codes "cookie"),
                ))
                m)
          on query n = m

      not_managed :
          (gs hs : List Header) (name : Text)
          → is_managed to_lower trace_id (gs ++ hs) name ≡ false
          → is_managed to_lower trace_id gs name ≡ false
      not_managed gs hs name n = ground (arith, n, is_managed-append gs hs name)

      module _ (platform : Platform) (context : AuthContext) (address : ℕ) where
        shown-Holds :
            (draft : RequestDraft)
            → Holds h draft.headers
            → is_managed to_lower trace_id
                (get_request_headers to_lower trace_id platform context address draft true)
                (lower_name to_lower trace_id h)
              ≡ false
            → Holds h (get_request_headers to_lower trace_id platform context address draft true)
        unfolding get_request_headers
        shown-Holds draft m n = Holds-append_left h _ _ (
            Holds-with_binding bound typed
              (Holds-with_content_type value draft.headers bound m free) free)
          where
            bound : Option AuthBinding
            bound = binding_of to_lower trace_id platform context address draft

            value : Option Text
            value = content_type_of draft.graphql draft.body

            typed : List Header
            typed = with_content_type to_lower trace_id value draft.headers

            free :
                is_managed to_lower trace_id
                  (with_binding to_lower trace_id bound typed)
                  (lower_name to_lower trace_id h)
                ≡ false
            free =
                not_managed (with_binding to_lower trace_id bound typed) _
                  (lower_name to_lower trace_id h) n

        -- Editing loses nothing: when the headers that are shown are written back as they are, every header
        -- that the request had, managed ones hidden behind its body, its authentication or its tracing
        -- included, is still there, if it is not read-only and has no spaces around its name, where the lower
        -- case of `Content-Type` and `Cookie` is as it should be.
        pub update_request_headers-Holds :
            (draft : RequestDraft)
            → Holds h draft.headers
            → Holds h
                (update_request_headers to_lower trace_id platform context address draft (
                  get_request_headers to_lower trace_id platform context address draft
                    true)).headers
        unfolding update_request_headers
        update_request_headers-Holds draft m =
            elim (Bool-cases
              (is_managed to_lower trace_id shown (lower_name to_lower trace_id h))) [
                | inl hidden ↦ Holds-append_left h _ _ (Holds-keep _ h draft.headers hidden m)
                | inr free ↦
                    Holds-append_right h _ _
                      (Holds-keep _ h shown (ground (arith, own, free)) (shown-Holds draft m free))
              ]
          where
            shown : List Header
            shown = get_request_headers to_lower trace_id platform context address draft true
