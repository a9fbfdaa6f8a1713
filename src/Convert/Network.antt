-- ===== src/Convert/Network.antt =====
-- internal/convert/network.go: Services and Ingresses.
pub mod Hostnames
use kubeadapt_agent.Prelude.{
  ℕ, nat_eq, Bool, false, Option, none, some, List, [], ◌∷◌, ◌++◌, String, String_eq,
  bytes_comparable, map, if◌then◌else◌, ◌==◌,
}
use kubeadapt_agent.Prelude.Int.{ℤ, pos, negsuc}
use kubeadapt_agent.GoMap.{GoMap, get_or}
use kubeadapt_agent.Transport.Message.{Text, text, decimal_ℤ}
use kubeadapt_agent.Model.Network.{
  LoadBalancerIngress, LoadBalancerInfo, ServicePortInfo, IngressPathInfo, IngressRuleInfo,
  IngressTlsInfo, IngressBackendInfo, IngressInfo,
}
use kubeadapt_agent.Model.Workload.{ServiceInfo}
use kubeadapt_agent.Convert.Api.{ObjectMeta}
use kubeadapt_agent.Convert.Annotations.{filter_annotations}
use kubeadapt_agent.Convert.Shared.{deref_or}

pub record ServicePort : Type 0 where
  pub name : String
  pub protocol : String
  pub port : ℤ
  pub target_port : String
  pub node_port : ℤ

-- An entry of Status.LoadBalancer.Ingress, of a Service or of an Ingress.
pub record LoadBalancerPoint : Type 0 where
  pub ip : String
  pub hostname : String

pub record Service : Type 0 where
  pub meta : ObjectMeta
  pub kind : String
  pub cluster_ip : String
  pub cluster_ips : List String
  pub external_ips : List String
  pub selector : GoMap String String
  pub session_affinity : String
  pub ports : List ServicePort
  pub load_balancer_class : Option String
  pub points : List LoadBalancerPoint

abbrev pub service_port_info : ServicePort → ServicePortInfo
service_port_info p = record {
  name = p.name;
  protocol = p.protocol;
  port = p.port;
  target_port = p.target_port;
  node_port = p.node_port;
}

abbrev pub load_balancer_ingress : LoadBalancerPoint → LoadBalancerIngress
load_balancer_ingress ing = record { ip = ing.ip; hostname = ing.hostname }

unfoldable pub load_balancer_info : Service → LoadBalancerInfo
load_balancer_info svc =
    let annotations = svc.meta.annotations in
    record {
      ingress = map load_balancer_ingress svc.points;
      class = deref_or "" svc.load_balancer_class;
      aws_load_balancer_type =
          get_or [] (text "service.beta.kubernetes.io/aws-load-balancer-type") annotations;
      aws_scheme =
          get_or [] (text "service.beta.kubernetes.io/aws-load-balancer-scheme") annotations;
      aws_arn_annotation =
          get_or [] (text "service.beta.kubernetes.io/aws-load-balancer-arn") annotations;
    }

unfoldable pub service_to_model : Service → ServiceInfo
service_to_model svc = record {
  name = svc.meta.name;
  namespace = svc.meta.namespace;
  kind = svc.kind;
  cluster_ip = svc.cluster_ip;
  cluster_ips = svc.cluster_ips;
  external_ips = svc.external_ips;
  load_balancer = if svc.kind == "LoadBalancer" then some (load_balancer_info svc) else none;
  ports = map service_port_info svc.ports;
  selector = svc.selector;
  target_workloads = [];
  labels = svc.meta.labels;
  annotations = filter_annotations svc.meta.annotations;
  creation_timestamp = svc.meta.creation_millis;
  session_affinity = svc.session_affinity;
}

-- Backend.Service; the name of its port as bytes.
pub record BackendService : Type 0 where
  pub name : String
  pub port_number : ℤ
  pub port_name : Text

pub record HttpPath : Type 0 where
  pub path : String
  pub path_type : Option String
  pub backend_service : Option BackendService

-- A rule; `none` for one without HTTP.
pub record IngressRule : Type 0 where
  pub host : String
  pub http_paths : Option (List HttpPath)

pub record IngressTls : Type 0 where
  pub hosts : List String
  pub secret_name : String

pub record Ingress : Type 0 where
  pub meta : ObjectMeta
  pub ingress_class_name : Option String
  pub rules : List IngressRule
  pub tls : List IngressTls
  -- DefaultBackend with its Service
  pub default_backend : Option (Option BackendService)
  pub points : List LoadBalancerPoint

abbrev pub is_zero : ℤ → Bool
is_zero (pos n) = nat_eq n 0
is_zero (negsuc n) = false

unfoldable pub backend_port : BackendService → Text
backend_port s = if is_zero s.port_number then s.port_name else decimal_ℤ s.port_number

abbrev pub backend_name_of : Option BackendService → String
backend_name_of none = ""
backend_name_of (some s) = s.name

abbrev pub backend_port_of : Option BackendService → Text
backend_port_of none = []
backend_port_of (some s) = backend_port s

abbrev pub ingress_path_info : HttpPath → IngressPathInfo
ingress_path_info p = record {
  path = p.path;
  path_type = deref_or "" p.path_type;
  backend_service = backend_name_of p.backend_service;
  backend_port = backend_port_of p.backend_service;
}

abbrev pub ingress_rule_info : IngressRule → IngressRuleInfo
ingress_rule_info r = record {
  host = r.host;
  paths = map ingress_path_info (deref_or [] r.http_paths);
}

abbrev pub ingress_tls_info : IngressTls → IngressTlsInfo
ingress_tls_info t = record { hosts = t.hosts; secret_name = t.secret_name }

abbrev pub default_backend_info : Option BackendService → Option IngressBackendInfo
default_backend_info none = none
default_backend_info (some s) =
    some (record { service_name = s.name; service_port = backend_port s })

-- The loop over the points of the load balancer.
unfoldable pub hostnames_loop : List String → List LoadBalancerPoint → List String
hostnames_loop hostnames [] = hostnames
hostnames_loop hostnames (lbi ∷ points) =
    hostnames_loop
      (if lbi.hostname == ""
        then if lbi.ip == "" then hostnames else hostnames ++ lbi.ip ∷ []
        else hostnames ++ lbi.hostname ∷ [])
      points

unfoldable pub ingress_to_model : Ingress → IngressInfo
ingress_to_model ing = record {
  name = ing.meta.name;
  namespace = ing.meta.namespace;
  ingress_class_name = deref_or "" ing.ingress_class_name;
  rules = map ingress_rule_info ing.rules;
  tls = map ingress_tls_info ing.tls;
  default_backend = default_backend_info (deref_or none ing.default_backend);
  labels = ing.meta.labels;
  annotations = filter_annotations ing.meta.annotations;
  creation_timestamp = ing.meta.creation_millis;
  load_balancer_hostnames = hostnames_loop [] ing.points;
}
