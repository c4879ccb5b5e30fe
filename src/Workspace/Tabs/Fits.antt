-- ===== src/Workspace/Tabs/Fits.antt =====
-- The tabs of a workspace fit its documents, whatever is done to them.
use purr.Common.{
  ℕ, ◌≡◌, refl, true, false, ◌&&◌, ◌||◌, not, Option, none, some, List, [], ◌∷◌, arith, String,
  is_id, includes, without, index_of, splice_in, splice_out, Distinct, head?, get_elem?, length,
  ◌-◌, includes-append, includes-one, includes-without, Distinct-append_one, Distinct-without,
  includes-get_elem?, includes-splice_in, Distinct-splice_in, splice_out-index_of,
  index_of-includes, eq_iff, eq_refl, Bool-cases, inl, inr,
}
use Prim.Native.Nat.{min}
use purr.Workspace.{Ui, RequestKind}
use purr.Workspace.Tabs.{activate_ui, closed_ui, neighbour, unless, with_id}

-- The open tabs are documents, each open once; the active and the previewed document are open; at most
-- one of the three utility tabs is active, and only if it is open.
pub record Fits (ids : List String) (ui : Ui) : Type 0 where
  pub once : Distinct ui.open_document_ids
  pub known : (a : String) → includes ui.open_document_ids a ≡ true → includes ids a ≡ true
  pub active :
      (a : String) → is_id ui.active_document_id a ≡ true → includes ui.open_document_ids a ≡ true
  pub preview :
      (a : String) → is_id ui.preview_document_id a ≡ true → includes ui.open_document_ids a ≡ true
  pub cookies : (ui.cookies_tab_active && not ui.cookies_tab_open) ≡ false
  pub variables : (ui.variables_tab_active && not ui.variables_tab_open) ≡ false
  pub settings : (ui.settings_tab_active && not ui.settings_tab_open) ≡ false
  pub single :
      ((ui.cookies_tab_active && ui.variables_tab_active)
        || (ui.cookies_tab_active && ui.settings_tab_active)
        || (ui.variables_tab_active && ui.settings_tab_active))
      ≡ false

includes-head? : (xs : List String) (a : String) → is_id (head? xs) a ≡ true → includes xs a ≡ true
includes-head? [] a h = absurd (cc)
includes-head? (x ∷ xs) a h = unfold includes in ground arith

pub Fits-activate : (ids : List String) (ui : Ui) → Fits ids ui → Fits ids (activate_ui ui)
Fits-activate ids ui f = record {
  once = ground (arith, f.once);
  known = λ a h. ground (arith, f.known a);
  active = λ a h. ground (arith, f.active a, includes-head? ui.open_document_ids a);
  preview = λ a h. ground (arith, f.preview a);
  cookies = ground (arith, f.cookies);
  variables = ground (arith, f.variables);
  settings = ground (arith, f.settings);
  single = ground (arith, f.single);
}

includes-found :
    (xs : List String) (o : Option String) (i : ℕ) (a : String)
    → get_elem? xs i ≡ o
    → is_id o a ≡ true
    → includes xs a ≡ true
includes-found xs none i a e h = absurd (cc)
includes-found xs (some b) i a e h = rw (← (eq_iff b a).0 h) (includes-get_elem? xs i b e)

includes-neighbour :
    (i : Option ℕ) (xs : List String) (a : String)
    → is_id (neighbour i xs) a ≡ true
    → includes xs a ≡ true
includes-neighbour none xs a h = absurd (cc)
includes-neighbour (some i) xs a h =
    includes-found xs (get_elem? xs (min i (length xs - 1))) (min i (length xs - 1)) a refl h

pub Fits-closed :
    (ids : List String) (ui : Ui) (id : String)
    → Fits ids ui
    → Fits (without id ids) (closed_ui ui id)
Fits-closed ids ui id f = record {
  once = Distinct-without id ui.open_document_ids f.once;
  known = λ a h.
      ground
        (arith, f.known a, includes-without id ui.open_document_ids a, includes-without id ids a);
  active = λ a h. ground (
    arith,
    f.active a,
    includes-without id ui.open_document_ids a,
    eq_iff id a,
    includes-neighbour (index_of ui.open_document_ids id) (without id ui.open_document_ids) a,
  );
  preview =
      λ a h. ground (arith, f.preview a, includes-without id ui.open_document_ids a, eq_iff id a);
  cookies = f.cookies;
  variables = f.variables;
  settings = f.settings;
  single = f.single;
}

-- The state of the tabs after `openDocument`, whatever schema and kind it records.
pub Fits-shown :
    (ids : List String) (ui : Ui) (id : String) (schema : Option String) (kind : RequestKind)
    → includes ids id ≡ true
    → Fits ids ui
    → Fits ids (record ui {
      open_document_ids = with_id ui.open_document_ids id;
      last_graphql_schema_id = schema;
      active_document_id = some id;
      cookies_tab_active = false;
      settings_tab_active = false;
      variables_tab_active = false;
      last_request_kind = kind;
    })
Fits-shown ids ui id schema kind h f = record {
  once = elim (Bool-cases (includes ui.open_document_ids id)) [
    | inl old ↦ rw old f.once
    | inr new ↦ rw new (Distinct-append_one ui.open_document_ids id f.once new)
  ];
  known = λ a p. ground (
    arith,
    f.known a,
    includes-append ui.open_document_ids (id ∷ []) a,
    includes-one id a,
    eq_iff id a,
  );
  active = λ a p.
      ground
        (arith, includes-append ui.open_document_ids (id ∷ []) a, includes-one id a, eq_iff id a);
  preview = λ a p. ground (arith, f.preview a, includes-append ui.open_document_ids (id ∷ []) a);
  cookies = refl;
  variables = refl;
  settings = refl;
  single = refl;
}

-- The state of the tabs after `previewDocument` has put a tab in the place of another, or behind all.
pub Fits-previewed :
    (ids : List String) (ui : Ui) (id : String) (opened : List String) (kind : RequestKind)
    → Fits ids ui
    → Distinct opened
    → ((a : String) → includes opened a ≡ true → includes ids a ≡ true)
    → includes opened id ≡ true
    → Fits ids (record ui {
      open_document_ids = opened;
      active_document_id = some id;
      preview_document_id = some id;
      cookies_tab_active = false;
      settings_tab_active = false;
      variables_tab_active = false;
      last_request_kind = kind;
    })
Fits-previewed ids ui id opened kind f once known h = record {
  once = once;
  known = known;
  active = λ a p. ground (arith, eq_iff id a);
  preview = λ a p. ground (arith, eq_iff id a);
  cookies = refl;
  variables = refl;
  settings = refl;
  single = refl;
}

pub Fits-reordered :
    (ids : List String) (ui : Ui) (id : String) (source target : ℕ)
    → index_of ui.open_document_ids id ≡ some source
    → Fits ids ui
    → Fits ids (record ui {
      open_document_ids = splice_in target id (splice_out source ui.open_document_ids);
      preview_document_id = unless ui.preview_document_id id;
    })
Fits-reordered ids ui id source target e f =
    let out = splice_out-index_of ui.open_document_ids id source f.once e in
    let there = index_of-includes ui.open_document_ids id source e in
    rw out (record {
      once =
          Distinct-splice_in target id (without id ui.open_document_ids)
            (Distinct-without id ui.open_document_ids f.once)
            (ground (arith, includes-without id ui.open_document_ids id, eq_refl id));
      known = λ a p. ground (
        arith,
        f.known a,
        includes-splice_in target id (without id ui.open_document_ids) a,
        includes-without id ui.open_document_ids a,
        eq_iff id a,
      );
      active = λ a p. ground (
        arith,
        f.active a,
        includes-splice_in target id (without id ui.open_document_ids) a,
        includes-without id ui.open_document_ids a,
        eq_iff id a,
      );
      preview = λ a p. ground (
        arith,
        f.preview a,
        includes-splice_in target id (without id ui.open_document_ids) a,
        includes-without id ui.open_document_ids a,
        eq_iff id a,
      );
      cookies = f.cookies;
      variables = f.variables;
      settings = f.settings;
      single = f.single;
    })

-- A tab may be closed where its documents stay.
pub Fits-mono :
    (ids more : List String) (ui : Ui)
    → ((a : String) → includes ids a ≡ true → includes more a ≡ true)
    → Fits ids ui
    → Fits more ui
Fits-mono ids more ui h f = record {
  once = f.once;
  known = λ a p. h a (f.known a p);
  active = f.active;
  preview = f.preview;
  cookies = f.cookies;
  variables = f.variables;
  settings = f.settings;
  single = f.single;
}
