-- ===== src/Nodes/Defs.antt =====
-- The state, and the primitive steps that the components' operations are written with.
use inference_sim.Prelude.{
  ℕ, suc, String, List, [], ite, ℕ_discrete, string_discrete, insert, erase,
}
use inference_sim.Dll
use inference_sim.Dll.{Dll}

pub record Nodes : Type 0 where
  pub entries : List (String × ℕ)
  pub key_of : ℕ → String
  pub list : Dll
  pub allocated : ℕ

unfoldable pub no_nodes : Nodes
no_nodes = record { entries = []; key_of = λ n. ""; list = Dll.empty; allocated = 0 }

-- node := &node{key: k}; m[k] = node. The new node is the address `allocated` of before.
unfoldable pub new_node : Nodes → String → Nodes
new_node x k = record x {
  entries = insert string_discrete k x.allocated x.entries;
  key_of = λ n. ite (ℕ_discrete n x.allocated) k (x.key_of n);
  allocated = suc x.allocated;
}

-- delete(m, k)
unfoldable pub forget : Nodes → String → Nodes
forget x k = record x { entries = erase string_discrete k x.entries }

unfoldable pub push_front : Nodes → ℕ → Nodes
push_front x n = record x { list = Dll.push_head x.list n }

unfoldable pub push_back : Nodes → ℕ → Nodes
push_back x n = record x { list = Dll.append_tail x.list n }

unfoldable pub detach : Nodes → ℕ → Nodes
detach x n = record x { list = Dll.unlink x.list n }
