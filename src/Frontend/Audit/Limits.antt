-- ===== src/Frontend/Audit/Limits.antt =====
-- internal/mcpfrontend/audit.go: when the audit passes.
use game_forge.Prelude.{
  ℕ, ◌≤◌, Bool, true, false, List, [], ◌∷◌, if◌then◌else◌, leb, ltb, ◌≡◌, ◌↔◌, refl, arith, All,
}
use game_forge.Frontend.Audit.{
  Budget, Gate, gate, Measured, ToolSize, Surface, Report, longest, model_surface, average,
  max_tool, largest_of, gates, status, audit, exit_code,
}

status_iff :
    (st : Bool) (gs : List Gate)
    → (status st gs ≡ true) ↔ ((st ≡ true) × All (λ (g : Gate). g.passes ≡ true) gs)
unfolding status
status_iff st [] = (λ h. (h, tt), λ h. h.0)
status_iff st (g ∷ gs) = (
  λ h.
      let r = (status_iff (if g.passes then st else false) gs).0 h in
      (ground (arith, r.0), (ground (arith, r.0), r.1)),
  λ h. (status_iff (if g.passes then st else false) gs).1 (ground (arith, h.0, h.1.0), h.1.1),
)

longest_iff :
    (n k : ℕ) (ms : List Measured)
    → (longest n ms ≤ k) ↔ ((n ≤ k) × All (λ (m : Measured). m.description_bytes ≤ k) ms)
unfolding longest
longest_iff n k [] = (λ h. (h, tt), λ h. h.0)
longest_iff n k (m ∷ ms) =
    let ih = longest_iff (if ltb n m.description_bytes then m.description_bytes else n) k ms in
    (
      λ h. let r = ih.0 h in (ground (arith, r.0), (ground (arith, r.0), r.1)),
      λ h. ih.1 (ground (arith, h.0, h.1.0), h.1.1),
    )

-- Every measure within its limit; the largest tool is the first of those that are listed.
pub record IsWithin (b : Budget) (s : Surface) (largest : List ToolSize) : Type 0 where
  pub catalog : s.catalog_bytes ≤ b.max_catalog_bytes
  pub surface : model_surface s.tools ≤ b.max_model_surface_bytes
  pub descriptions :
      All (λ (m : Measured). m.description_bytes ≤ b.max_description_bytes_per_tool) s.tools
  pub tool : max_tool largest ≤ b.max_tool_bytes
  pub mean : average s.tools ≤ b.max_avg_tool_bytes
  pub requests : s.init_http_requests ≤ b.max_init_http_requests
  pub init : s.warm_init_ms ≤ b.max_warm_init_ms
  pub ready : s.warm_ready_ms ≤ b.max_warm_ready_ms
  pub duplicate : s.duplicate_bytes ≤ b.max_structured_text_duplicate_bytes
  pub success_text : s.text_bytes ≤ b.max_success_text_bytes
  pub result : s.result_bytes ≤ b.max_result_bytes
  pub trivial_call : s.p95_ms ≤ b.max_trivial_call_ms

leb_iff : (a b : ℕ) → (leb a b ≡ true) ↔ (a ≤ b)
leb_iff a b = (λ h. ground arith, λ h. ground arith)

exit_code_iff : (r : Report) → (exit_code r ≡ 0) ↔ (r.passes ≡ true)
unfolding exit_code
exit_code_iff r = (λ h. ground arith, λ h. ground arith)

-- The audit exits with 0 exactly when every measure is within its limit.
exit_code-audit :
    (sort : List ToolSize → List ToolSize) (b : Budget) (s : Surface)
    → (exit_code (audit sort b s) ≡ 0) ↔ IsWithin b s (largest_of sort s.tools)
unfolding audit gates gate
exit_code-audit sort b s =
    let gs = gates b s (largest_of sort s.tools) in
    (
      λ h.
          let q = ((status_iff true gs).0 ((exit_code_iff (audit sort b s)).0 h)).1 in
          record {
            catalog = (leb_iff _ _).0 q.0;
            surface = (leb_iff _ _).0 q.1.0;
            descriptions = ((longest_iff 0 _ s.tools).0 ((leb_iff _ _).0 q.1.1.0)).1;
            tool = (leb_iff _ _).0 q.1.1.1.0;
            mean = (leb_iff _ _).0 q.1.1.1.1.0;
            requests = (leb_iff _ _).0 q.1.1.1.1.1.0;
            init = (leb_iff _ _).0 q.1.1.1.1.1.1.0;
            ready = (leb_iff _ _).0 q.1.1.1.1.1.1.1.0;
            duplicate = (leb_iff _ _).0 q.1.1.1.1.1.1.1.1.0;
            success_text = (leb_iff _ _).0 q.1.1.1.1.1.1.1.1.1.0;
            result = (leb_iff _ _).0 q.1.1.1.1.1.1.1.1.1.1.0;
            trivial_call = (leb_iff _ _).0 q.1.1.1.1.1.1.1.1.1.1.1.0;
          },
      λ w. (exit_code_iff (audit sort b s)).1 (
          (status_iff true gs).1 (
            refl,
            (
              (leb_iff _ _).1 w.catalog,
              (
                (leb_iff _ _).1 w.surface,
                (
                  (leb_iff _ _).1 ((longest_iff 0 _ s.tools).1 (omega arith, w.descriptions)),
                  (
                    (leb_iff _ _).1 w.tool,
                    (
                      (leb_iff _ _).1 w.mean,
                      (
                        (leb_iff _ _).1 w.requests,
                        (
                          (leb_iff _ _).1 w.init,
                          (
                            (leb_iff _ _).1 w.ready,
                            (
                              (leb_iff _ _).1 w.duplicate,
                              (
                                (leb_iff _ _).1 w.success_text,
                                ((leb_iff _ _).1 w.result, ((leb_iff _ _).1 w.trivial_call, tt)),
                              ),
                            ),
                          ),
                        ),
                      ),
                    ),
                  ),
                ),
              ),
            ),
          )),
    )
