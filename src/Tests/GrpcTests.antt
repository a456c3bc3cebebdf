-- ===== src/Tests/GrpcTests.antt =====
-- Tests of the bridge between host and connector.
use autoschematic.Prelude.{ℕ, ◌≡◌, refl, true, none, some, [], ◌∷◌, Text, text, ok, err}
use autoschematic.GrpcBridge.{Connector, present}
use autoschematic.GrpcBridge.Server.{present_values, serve}
use autoschematic.GrpcBridge.Client.{client}
use autoschematic.GrpcBridge.Tidy.{tidy, AgreesWith}
use autoschematic.GrpcBridge.Roundtrip.{client-serve}

-- A connector that counts its operations; `arn` is deleted by each of them.
abbrev counting : Connector ℕ Text
counting = record {
  init = λ s. (ok tt, s);
  version = λ s. (ok (text "0.1"), s);
  filter = λ addr s. (ok 2, s);
  list = λ subpath s. (ok (text "vpc.ron" ∷ []), s);
  subpaths = λ s. (ok (text "./" ∷ []), s);
  get = λ addr s. (
    ok (
        some
          (record { resource_definition = text "Vpc()"; virt_addr = some []; outputs = some [] })),
    s,
  );
  plan = λ addr current desired s. (ok [], s);
  op_exec = λ addr op s. (
    ok (record {
      outputs = some ((text "arn", none) ∷ (text "id", some (text "vpc-1")) ∷ []);
      friendly_message = some [];
    }),
    s,
  );
  addr_virt_to_phy = λ addr s. (ok (present addr), s);
  addr_phy_to_virt = λ addr s. (ok (some addr), s);
  get_skeletons = λ s. (ok [], s);
  get_docstring = λ addr ident s. (ok none, s);
  eq = λ addr a b s. (ok true, s);
  diag = λ addr a s. (ok (some []), s);
  task_exec = λ addr body arg state s. (err (text "no tasks"), s);
  unbundle = λ addr bundle s. (ok [], s);
}

client-serve_example : AgreesWith (client (serve (λ e. e) counting)) (tidy (λ e. e) counting)
client-serve_example = client-serve (λ e. e) counting

-- The deletion of `arn` is lost.
lost_deletion : (client (serve (λ e. e) counting)).op_exec [] [] 0 ≡ (
  ok (record { outputs = some ((text "id", some (text "vpc-1")) ∷ []); friendly_message = none }),
  0,
)
unfolding client serve present_values
lost_deletion = refl

-- An empty virtual address is none.
no_virt_addr : (client (serve (λ e. e) counting)).get [] 0 ≡ (
  ok (some (record { resource_definition = text "Vpc()"; virt_addr = none; outputs = none })),
  0,
)
unfolding client serve
no_virt_addr = refl
