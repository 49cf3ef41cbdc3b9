-- ===== src/Http3ClientBackend/Failures.antt =====
-- What a client does with a journal in which a number is missing.
use world_wide_anthropomorph.Http3ClientBackend.State.{Client, Threads}
use world_wide_anthropomorph.Http3ClientBackend.{encode_mutable_page_tree_request}
use world_wide_anthropomorph.Base.{ℕ, true, List, [], ◌∷◌, ◌++◌}
use world_wide_anthropomorph.Backend.{Backend}
use world_wide_anthropomorph.TreeNode.{TreeNode}
use world_wide_anthropomorph.Http3TreeMessage.{Http3TreeMessage, new_message}
use world_wide_anthropomorph.Http3TreeMessage.Requests

module _ {S : Type 0} (B : Backend S) (threads : Threads S)
    (data_chunks : TreeNode → List (List ℕ)) where
  -- The request for the nodes that may have changed.
  abbrev pub page_tree_request : Http3TreeMessage
  page_tree_request =
      (encode_mutable_page_tree_request B threads data_chunks true (new_message 0)).0

  abbrev asked : Client S → Client S
  asked c = record c { pending_requests = c.pending_requests ++ page_tree_request ∷ [] }
