-- ===== src/Decode/Methods.antt =====
-- decode/evm_rpc.go: the lists of methods, the tests on them, the positions of parameters, and the
-- codec of block tags.
use kava_proxy_service.Base.{String, List, [], ◌∷◌, Bool, Dict, contains, ℕ, ℤ, negsuc}

abbrev pub cacheable_by_block_number_methods : List String
cacheable_by_block_number_methods =
    "eth_getBalance" ∷ "eth_getStorageAt" ∷ "eth_getTransactionCount"
    ∷ "eth_getBlockTransactionCountByNumber" ∷ "eth_getUncleCountByBlockNumber" ∷ "eth_getCode"
    ∷ "eth_getBlockByNumber" ∷ "eth_getTransactionByBlockNumberAndIndex"
    ∷ "eth_getUncleByBlockNumberAndIndex" ∷ "eth_call" ∷ []

unfoldable pub method_has_block_number_param : String → Bool
method_has_block_number_param method = contains cacheable_by_block_number_methods method

abbrev pub cacheable_by_block_hash_methods : List String
cacheable_by_block_hash_methods =
    "eth_getBlockTransactionCountByHash" ∷ "eth_getUncleCountByBlockHash" ∷ "eth_getBlockByHash"
    ∷ "eth_getUncleByBlockHashAndIndex" ∷ "eth_getTransactionByBlockHashAndIndex" ∷ []

unfoldable pub method_has_block_hash_param : String → Bool
method_has_block_hash_param method = contains cacheable_by_block_hash_methods method

abbrev pub static_methods : List String
static_methods = "eth_chainId" ∷ "net_version" ∷ []

unfoldable pub is_method_static : String → Bool
is_method_static method = contains static_methods method

abbrev pub cacheable_by_tx_hash_methods : List String
cacheable_by_tx_hash_methods = "eth_getTransactionReceipt" ∷ "eth_getTransactionByHash" ∷ []

unfoldable pub method_has_tx_hash_param : String → Bool
method_has_tx_hash_param method = contains cacheable_by_tx_hash_methods method

abbrev pub no_history_methods : List String
no_history_methods =
    "web3_clientVersion" ∷ "web3_sha3" ∷ "net_version" ∷ "net_listening" ∷ "net_peerCount"
    ∷ "eth_protocolVersion" ∷ "eth_syncing" ∷ "eth_coinbase" ∷ "eth_chainId" ∷ "eth_mining"
    ∷ "eth_hashrate" ∷ "eth_gasPrice" ∷ "eth_accounts" ∷ "eth_blockNumber" ∷ "eth_sign"
    ∷ "eth_signTransaction" ∷ "eth_sendTransaction" ∷ "eth_sendRawTransaction" ∷ []

unfoldable pub method_requires_no_history : String → Bool
method_requires_no_history method = contains no_history_methods method

abbrev pub method_name_to_block_number_param_index : Dict ℕ
method_name_to_block_number_param_index =
    ("eth_getBalance", 1)
    ∷ ("eth_getStorageAt", 2)
    ∷ ("eth_getTransactionCount", 1)
    ∷ ("eth_getBlockTransactionCountByNumber", 0)
    ∷ ("eth_getUncleCountByBlockNumber", 0)
    ∷ ("eth_getCode", 1)
    ∷ ("eth_getBlockByNumber", 0)
    ∷ ("eth_getTransactionByBlockNumberAndIndex", 0)
    ∷ ("eth_getUncleByBlockNumberAndIndex", 1)
    ∷ ("eth_call", 1)
    ∷ []

abbrev pub method_name_to_block_hash_param_index : Dict ℕ
method_name_to_block_hash_param_index =
    ("eth_getBlockTransactionCountByHash", 0)
    ∷ ("eth_getUncleCountByBlockHash", 0)
    ∷ ("eth_getBlockByHash", 0)
    ∷ ("eth_getUncleByBlockHashAndIndex", 0)
    ∷ ("eth_getTransactionByBlockHashAndIndex", 0)
    ∷ []

-- The int64 that stands for each block tag.
abbrev pub latest_number : ℤ
latest_number = negsuc 0

abbrev pub pending_number : ℤ
pending_number = negsuc 1

abbrev pub earliest_number : ℤ
earliest_number = negsuc 2

abbrev pub finalized_number : ℤ
finalized_number = negsuc 3

abbrev pub safe_number : ℤ
safe_number = negsuc 4

abbrev pub empty_number : ℤ
empty_number = negsuc 5

abbrev pub block_tag_to_number_codec : Dict ℤ
block_tag_to_number_codec =
    ("latest", latest_number)
    ∷ ("pending", pending_number)
    ∷ ("earliest", earliest_number)
    ∷ ("finalized", finalized_number)
    ∷ ("safe", safe_number)
    ∷ ("empty", empty_number)
    ∷ []
