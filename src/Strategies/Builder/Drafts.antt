-- ===== src/Strategies/Builder/Drafts.antt =====
-- What `BuildDraft` of internal/strategies/builder.go proposes, against `Spec.Validate`.
use Prim.Native.String.{◌++◌ as append, len}
use signal_ledger_project.Prelude.{
  ◌≤◌, String, ◌≡◌, ◌≢◌, refl, sym, ◌∙◌, true, false, inl, inr, ◌↔◌, none, List, [], ◌∷◌, subst,
  map, arith, eq_iff, keep, All, ◌==◌,
}
use signal_ledger_project.Prelude.Float.{Float}
use signal_ledger_project.Prelude.Sorting.{Sorter}
use signal_ledger_project.Prelude.Strings.{trim_space, join}
use signal_ledger_project.Domain.Research.{StoredClaim}
use signal_ledger_project.Strategies.Spec.{matches_symbol, allowed_value, valid_template, validate}
use signal_ledger_project.Strategies.Spec.Valid.{IsValid, FilterKnown, validate-none}
use signal_ledger_project.Strategies.Builder.{
  Draft, drafted, positive_themes, net_macro_themes, default_filters, equity_draft, macro_draft,
  is_accepted, draft_themes, draft_tickers, draft_accepted, net_ticker_symbols, build_draft,
}
use signal_ledger_project.Strategies.Builder.Fitting.{fits_iff, positive_themes-fits}
use signal_ledger_project.Strategies.Builder.Slug.{draft_slug-matches}

abbrev equity_name : List String → String
equity_name symbols = append "Research draft: " (join symbols ", ")

pub drafted-injective : {F : Type 0} {a b : Draft F} → drafted a ≡ drafted b → a ≡ b
drafted-injective h = cc

nonblank : (s : String) → (s == "") ≡ false → s ≢ ""
nonblank s h e = absurd (ground (arith, (eq_iff s "").1 e))

module _ {F : Type 0} (fl : Float F) where
  -- How the constants of a draft compare with the limits of a spec.
  pub record IsOrdered : Type 0 where
    pub weight_above : fl.le (fl.lit 2 1) (fl.lit 0 0) ≡ false
    pub weight_below : fl.lt (fl.lit 1 0) (fl.lit 2 1) ≡ false
    pub cost_above : fl.lt (fl.lit 5 0) (fl.lit 0 0) ≡ false
    pub cost_below : fl.lt (fl.lit 1000 0) (fl.lit 5 0) ≡ false

  default_filters-known :
      (claims : List (StoredClaim F)) → All FilterKnown (default_filters fl claims)
  unfolding default_filters allowed_value
  default_filters-known claims = (
    (inr (inr (inr (inl refl))), inr (inl refl), refl),
    (
      (inr (inr (inr (inr (inl refl)))), inr (inr (inr (inr (inl refl)))), refl),
      (
        (
          inr (inr (inr (inr (inr (inr (inr (inr (inl refl)))))))),
          inr (inr (inr (inr (inl refl)))),
          refl,
        ),
        tt,
      ),
    ),
  )

  universes_named :
      (trim_space "macro-theme-etf-proxies" ≢ "") × (trim_space "research-cited-equities" ≢ "")
  unfolding trim_space
  universes_named = (nonblank _ refl, nonblank _ refl)

  module _ (ordered : IsOrdered) where
    -- The draft of a macro strategy passes the checks of Spec.Validate, whatever the claims are, as
    -- soon as they name a theme.
    macro_draft-IsValid :
        (claims accepted : List (StoredClaim F))
        → (net_macro_themes fl claims).1 ≢ []
        → IsValid fl
            (macro_draft fl
              (net_macro_themes fl claims).0
              (net_macro_themes fl claims).1
              accepted).spec
    unfolding macro_draft net_macro_themes valid_template
    macro_draft-IsValid claims accepted listed =
        let names = map (λ theme. theme.name) (positive_themes fl claims) in
        let fit = fits_iff (positive_themes fl claims) (positive_themes-fits fl claims) in
        record {
          slug_matches = (draft_slug-matches names).1;
          version_positive = ground arith;
          name_length = (fit.0, fit.1);
          universe_named = universes_named.0;
          asset_class = inr refl;
          symbols_listed = listed;
          symbols_match = fit.2;
          template_known = refl;
          filters_known = default_filters-known accepted;
          schedule_known = inr (inl refl);
          weight_range = (ordered.weight_above, ordered.weight_below);
          cost_range = (ordered.cost_above, ordered.cost_below);
          stop_range = tt;
        }

    -- An equity draft is valid if its symbols and the length of its name are.
    equity_draft-IsValid :
        (symbols : List String) (accepted : List (StoredClaim F))
        → symbols ≢ []
        → All (λ symbol. matches_symbol symbol ≡ true) symbols
        → (3 ≤ len (trim_space (equity_name symbols)))
          × (len (trim_space (equity_name symbols)) ≤ 120)
        → IsValid fl (equity_draft fl symbols accepted).spec
    unfolding equity_draft valid_template
    equity_draft-IsValid symbols accepted listed match length = record {
      slug_matches = (draft_slug-matches symbols).0;
      version_positive = ground arith;
      name_length = length;
      universe_named = universes_named.1;
      asset_class = inl refl;
      symbols_listed = listed;
      symbols_match = match;
      template_known = refl;
      filters_known = default_filters-known accepted;
      schedule_known = inr (inl refl);
      weight_range = (ordered.weight_above, ordered.weight_below);
      cost_range = (ordered.cost_above, ordered.cost_below);
      stop_range = tt;
    }

    equity_draft_iff :
        (symbols : List String) (accepted : List (StoredClaim F))
        → symbols ≢ []
        → (validate fl (equity_draft fl symbols accepted).spec ≡ none) ↔ (
            All (λ symbol. matches_symbol symbol ≡ true) symbols
            × ((3 ≤ len (trim_space (equity_name symbols)))
                × (len (trim_space (equity_name symbols)) ≤ 120)))
    equity_draft_iff symbols accepted listed = (
      λ h.
          let v = (validate-none fl (equity_draft fl symbols accepted).spec).0 h in
          unfold equity_draft in (v.symbols_match, v.name_length),
      λ h.
          (validate-none fl (equity_draft fl symbols accepted).spec).1
            (equity_draft-IsValid symbols accepted listed h.0 h.1),
    )

    -- What a draft is about, by what its claims say in sum: the tickers with a positive net view,
    -- or, without one, the proxies of the themes with a positive net view.
    pub data IsProposal (sorter : Sorter String) (accepted : List (StoredClaim F))
        : Draft F → Type 0 where
      on_tickers :
          (d : Draft F)
          → (d.spec.universe.symbols ≡ net_ticker_symbols fl sorter accepted)
          → ((validate fl d.spec ≡ none) ↔ (
              All (λ symbol. matches_symbol symbol ≡ true) d.spec.universe.symbols
              × ((3 ≤ len (trim_space d.spec.name)) × (len (trim_space d.spec.name) ≤ 120))))
          → IsProposal sorter accepted d
      on_themes :
          (d : Draft F)
          → (net_ticker_symbols fl sorter accepted ≡ [])
          → (d.spec.universe.symbols ≡ (net_macro_themes fl accepted).1)
          → (validate fl d.spec ≡ none)
          → IsProposal sorter accepted d

    pub IsSound : Sorter String → List (StoredClaim F) → Draft F → Type 0
    IsSound sorter accepted d =
        (d.claims ≡ accepted) × (d.spec.universe.symbols ≢ []) × IsProposal sorter accepted d

    macro_draft-IsSound :
        (sorter : Sorter String) (accepted : List (StoredClaim F)) (symbols : List String)
        → net_ticker_symbols fl sorter accepted ≡ []
        → symbols ≡ (net_macro_themes fl accepted).1
        → symbols ≢ []
        → IsSound sorter accepted (macro_draft fl (net_macro_themes fl accepted).0 symbols accepted)
    unfolding IsSound macro_draft
    macro_draft-IsSound sorter accepted symbols t e listed =
        let net = net_macro_themes fl accepted in
        (
          refl,
          listed,
          on_themes _ t e (
              subst (λ s. validate fl (macro_draft fl net.0 s accepted).spec ≡ none) (sym e)
                ((validate-none fl (macro_draft fl net.0 net.1 accepted).spec).1
                  (macro_draft-IsValid accepted accepted (λ k. listed (e ∙ k))))),
        )

    equity_draft-IsSound :
        (sorter : Sorter String) (accepted : List (StoredClaim F)) (symbols : List String)
        → symbols ≡ net_ticker_symbols fl sorter accepted
        → symbols ≢ []
        → IsSound sorter accepted (equity_draft fl symbols accepted)
    unfolding IsSound equity_draft
    equity_draft-IsSound sorter accepted symbols e listed =
        (refl, listed, on_tickers _ e (equity_draft_iff symbols accepted listed))

    draft_themes-IsSound :
        (sorter : Sorter String) (accepted : List (StoredClaim F)) (symbols : List String)
        (d : Draft F)
        → net_ticker_symbols fl sorter accepted ≡ []
        → symbols ≡ (net_macro_themes fl accepted).1
        → draft_themes fl (net_macro_themes fl accepted).0 symbols accepted ≡ drafted d
        → IsSound sorter accepted d
    draft_themes-IsSound sorter accepted [] d t e h = cc
    draft_themes-IsSound sorter accepted (symbol ∷ symbols) d t e h =
        subst (IsSound sorter accepted) (drafted-injective h)
          (macro_draft-IsSound sorter accepted (symbol ∷ symbols) t e (λ k. cc))

    draft_tickers-IsSound :
        (sorter : Sorter String) (accepted : List (StoredClaim F)) (symbols : List String)
        (d : Draft F)
        → symbols ≡ net_ticker_symbols fl sorter accepted
        → draft_tickers fl symbols accepted ≡ drafted d
        → IsSound sorter accepted d
    draft_tickers-IsSound sorter accepted [] d e h =
        draft_themes-IsSound sorter accepted _ d (sym e) refl h
    draft_tickers-IsSound sorter accepted (symbol ∷ symbols) d e h =
        subst (IsSound sorter accepted) (drafted-injective h)
          (equity_draft-IsSound sorter accepted (symbol ∷ symbols) e (λ k. cc))

    draft_accepted-IsSound :
        (sorter : Sorter String) (accepted : List (StoredClaim F)) (d : Draft F)
        → draft_accepted fl sorter accepted ≡ drafted d
        → (accepted ≢ []) × IsSound sorter accepted d
    draft_accepted-IsSound sorter [] d h = cc
    draft_accepted-IsSound sorter (claim ∷ claims) d h =
        (λ k. cc, draft_tickers-IsSound sorter (claim ∷ claims) _ d refl h)

    -- What BuildDraft drafts rests on the accepted claims among those given, of which there is one at
    -- least, names a symbol at least, and is about the tickers with a positive net view, or, if there
    -- are none, about the themes with one. A draft about themes always passes Spec.Validate; a draft
    -- about tickers does so exactly if every ticker is spelled like a symbol and its name is of 3 to
    -- 120 bytes.
    pub build_draft-drafted :
        (sorter : Sorter String) (claims : List (StoredClaim F)) (d : Draft F)
        → build_draft fl sorter claims ≡ drafted d
        → (keep (is_accepted fl) claims ≢ [])
          × (d.claims ≡ keep (is_accepted fl) claims)
          × (d.spec.universe.symbols ≢ [])
          × IsProposal sorter (keep (is_accepted fl) claims) d
    unfolding build_draft IsSound
    build_draft-drafted sorter claims d h =
        let s = draft_accepted-IsSound sorter (keep (is_accepted fl) claims) d h in
        (s.0, s.1.0, s.1.1, s.1.2)
