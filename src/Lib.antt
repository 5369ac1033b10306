-- ===== src/Lib.antt =====
-- The core of the polaris-cpp SDK: state tables, quota buckets, caches, selectors, routers and the
-- gRPC codec, as functions on records.
--
-- Files and code, paths from the repository's root:
--   Base/: tests on numbers, lists, machine words and dictionaries that the other modules share.
--   CircuitBreaker/ChainData: CircuitBreakerChainData and InstancesCircuitBreakerStatus of
--     polaris/plugin/circuit_breaker/chain.{h,cpp}, the table of instance states that all breakers of
--     a service share; translate_status is TranslateStatus, check_and_sync is
--     CheckAndSyncToLocalRegistry.
--   CircuitBreaker/ErrorCount and CircuitBreaker/ErrorRate: error_count.{h,cpp} and error_rate.{h,cpp}
--     there. real_time_circuit_break, timing_circuit_break, detect_to_half_open and clean_status are
--     the methods of those names; they change the shared table through `translate`, as the code does,
--     and CircuitBreaker/Agreement has the lemmas on that call. CircuitBreaker/ErrorCount/History has
--     the events: calls, the timer, both kinds of probe of
--     polaris/plugin/health_checker/health_checker.cpp, and the other plugins.
--   CircuitBreaker/Slots: the breakers' maps from instance ids, as their callers see them.
--   Quota/TokenBucket and Quota/QpsBucket: TokenBucket and RemoteAwareQpsBucket of
--     polaris/quota/quota_bucket_qps.{h,cpp}; a rule's bucket is a list of token buckets by period.
--   Quota/RateLimitRule: RateLimitRule of polaris/quota/model/rate_limit_rule.{h,cpp}; is_match,
--     get_window_key and get_metric_id are the methods of those names, and a window key starts empty.
--   Quota/RateLimitData: RateLimitData of polaris/quota/model/service_rate_limit_rule.cpp.
--   Cache/LruMap: LruHashMap of polaris/cache/lru_map.h.
--   Cache/RcuMap: RcuUnorderedMap of polaris/cache/rcu_unordered_map.h, with the cells that its two
--     maps share.
--   LoadBalancer/CircularQueue: CircularQueue of
--     polaris/plugin/load_balancer/locality_aware/circular_queue.h.
--   LoadBalancer/RingHash: ContinuumSelector of polaris/plugin/load_balancer/ringhash/continuum.{h,cpp};
--     setup, rehash, select and select_replicate are the methods of those names. The hash function and
--     the printing of what it hashes are parameters, and floor(a / b) in `double` of numbers below
--     2 ^ 32 is the quotient.
--   LoadBalancer/WeightedRandom: RandomLoadBalancer of
--     polaris/plugin/load_balancer/weighted_random.{h,cpp}; build_value is what ChooseInstance puts
--     into its cache, choose_instance the rest of it, with the random value and the half-open
--     instance, which Model/HalfOpen chooses, as arguments.
--   LoadBalancer/LocalityAware: the weight tree of
--     polaris/plugin/load_balancer/locality_aware/locality_aware_selector.{h,cpp}, in one buffer;
--     change_weight is what Feedback and a selection do when a weight changed, descend the way down of
--     SelectInstance; LocalityAware/Ends has the rounds of both loops as relations.
--     LoadBalancer/Counting counts the random values that pass a test.
--   Cache/RcuTime: ThreadTimeMgr of polaris/cache/rcu_time.{h,cpp}.
--   Model/HalfOpen: the half-open instances of Service in polaris/model/model.cpp; the methods keep
--     their names, and the random place is an argument.
--   Network/GrpcCodec: GrpcCodec::SerializeToGrpcFrame and GrpcDecoder of
--     polaris/network/grpc/codec.{h,cpp}; decode is Decode, round one pass through its switch. A
--     message owns its Buffer and is copied without it: Network/GrpcCodec/Vector has what the vector
--     of messages holds after a series of push_back, with a parameter that says when it grows.
--   Router/Instances: the instances that the routers see, and their vectors of healthy and unhealthy.
--   Router/Metadata, Router/Canary, Router/NearbyConfig and Router/Nearby: the calculations of
--     metadata_router.cpp, canary_router.cpp and nearby_router.{h,cpp} in
--     polaris/plugin/service_router, which the DoRoute methods cache.
--   Router/SetDivision: SetDivisionServiceRouter of set_division_router.cpp there; set_division_route
--     is DoRoute for a key that is not in its cache, match_at CalculateMatchResult behind its test of
--     the name.
--   Rule/: routing by rules. Rule/MatchString is MatchString of polaris/model/match_string.{h,cpp},
--     with RE2 as a parameter. Rule/Source, Rule/Destination and Rule/RouteRule are the classes of
--     polaris/model/route_rule_source.cpp, route_rule_destination.cpp and route_rule.cpp;
--     calculate_groups is RouteRuleDestination::CalculateSet, rule_calculate_set
--     RouteRule::CalculateSet. Rule/RouteMatch is ServiceRouteRule::RouteMatch of
--     polaris/model/service_route_rule.cpp. Rule/Cluster is RuleRouterCluster of
--     polaris/plugin/service_router/rule_router.cpp with the breakers of subsets as an argument;
--     Rule/Choice its CalculateRouteResult, the weights of DoRoute and SelectSet, and Rule/Routing
--     the whole of DoRoute, which calls RouteMatch, CalculateSet, CalculateSubset,
--     CalculateRouteResult and SelectSet one after the other.
--
-- Machine integers are bit patterns in the natural numbers, with the wrap-around written out; tests
-- on signed types shift the patterns. Keys such as std::string are a type with decidable equality,
-- or a list of codes where the code builds and cuts strings. A method is one step: locks are held
-- for all of it, and a compare-and-exchange finds what the method read before, but for the weak one
-- of ErrorRateCircuitBreaker, whose outcome is an argument. The clock is read once for each call.
--
-- The definitions on fuel have enough of it. mod_loop of the circular queue has the dividend: each
-- round takes off at least 1, so that is enough for every capacity but 0, where the C++ loop has no
-- end. decode_slice has the length of the slice: each round takes a byte at least. update_loop has
-- the index, as a parent's index is smaller, and descend the size of the tree, as a child's index is
-- larger. rehash counts down the five tries that ReHash counts up to.
--
-- Not modelled: readers that hold an old read map of RcuUnorderedMap, since methods are steps; the
-- values of `float` in ErrorRateCircuitBreaker, of which the operations are a parameter; CheckGc of
-- the breakers' maps, which frees what no one can reach; sockets, files, logs and generated messages;
-- ContinuumSelector::FastSetup; the second buffer of LocalityAwareSelector with Remove, and its weights
-- from latencies; the Maglev and L5 selectors; CircuitBreakerChain; the caches of the DoRoute methods,
-- and DoRoute of the metadata, canary and nearby routers; RouterChain.
pub mod Base
pub mod Cache
pub mod CircuitBreaker
pub mod LoadBalancer
pub mod Model
pub mod Network
pub mod Quota
pub mod Router
pub mod Rule
